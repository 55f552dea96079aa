-- ===== src/Cpu/Handler.antt =====
-- src/cpu/cpu6502.cpp: the capture/commit pairs, one for each shape of instruction.
pub data Handler : Type 0 where
  read_immediate read_absolute read_zero_page read_zero_page_x read_absolute_x read_absolute_y
        read_indirect_x read_indirect_y shift_accumulator rmw_zero_page rmw_zero_page_x rmw_absolute
        rmw_absolute_x implied_inc_dec implied_transfer implied_flag_op load_immediate
        load_zero_page load_zero_page_x load_zero_page_y load_absolute load_absolute_x
        load_absolute_y load_indirect_x load_indirect_y store_zero_page store_zero_page_x
        store_zero_page_y store_absolute store_absolute_x store_absolute_y store_indirect_x
        store_indirect_y branch brk jsr rts jmp_absolute jmp_indirect nop rti implied_push
        implied_pull unimplemented :
      Handler
