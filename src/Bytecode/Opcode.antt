-- ===== src/Bytecode/Opcode.antt =====
-- The opcodes of the AngelScript bytecode that the translator names (asEBCInstr of the script
-- engine), in the order of their names there. `unknown` is any other byte.
use angelsea.Common.{ℕ}

pub data Opcode : Type 0 where
  addi_f addi_i adds_i add_d add_f add_i add_i64 alloc alloc_mem band band64 bnot bnot64 bor :
      Opcode
  bor64 bsll bsll64 bsra bsra64 bsrl bsrl64 bxor bxor64 call callbnd callintf callsys chkref :
      Opcode
  cmpi_f cmpi_i cmpi_u cmp_d cmp_f cmp_i cmp_i64 cmp_u cmp_u64 copy call_ptr cast chk_null_s :
      Opcode
  chk_null_v chk_ref_s clr_hi clr_v_ptr cmp_ptr cpy_g_to_v4 cpy_r_to_v4 cpy_r_to_v8 : Opcode
  cpy_v_to_g4 cpy_v_to_r4 cpy_v_to_r8 cpy_v_to_v4 cpy_v_to_v8 dec_d dec_f dec_i dec_i16 : Opcode
  dec_i64 dec_i8 div_d div_f div_i div_i64 div_u div_u64 dec_vi free func_ptr getobj : Opcode
  getobjref getref inc_d inc_f inc_i inc_i16 inc_i64 inc_i8 inc_vi j_low_nz j_low_z jmp jmpp :
      Opcode
  jnp jns jnz jp js jz jit_entry ldg ldv loadobj ld_g_rd_r4 load_r_obj_r load_this_r : Opcode
  load_v_obj_r mod_d mod_f mod_i mod_i64 mod_u mod_u64 muli_f muli_i mul_d mul_f mul_i : Opcode
  mul_i64 neg_d neg_f neg_i neg_i64 not objtype pga pow_d pow_di pow_f pow_i pow_i64 pow_u : Opcode
  pow_u64 psf pop_ptr pop_r_ptr psh_c4 psh_c8 psh_g4 psh_g_ptr psh_list_elmnt psh_null : Opcode
  psh_r_ptr psh_v4 psh_v8 psh_v_ptr rdr1 rdr2 rdr4 rdr8 rds_ptr refcpy ret ref_cpy_v : Opcode
  storeobj str subi_f subi_i sub_d sub_f sub_i sub_i64 suspend set_g4 set_list_size : Opcode
  set_list_type set_v1 set_v2 set_v4 set_v8 swap_ptr tnp tns tnz tp ts typeid tz thiscall1 : Opcode
  var wrtv1 wrtv2 wrtv4 wrtv8 d_to_f d_to_i d_to_i64 d_to_u d_to_u64 f_to_d f_to_i f_to_i64 : Opcode
  f_to_u f_to_u64 i64_to_d i64_to_f i64_to_i i_to_b i_to_d i_to_f i_to_i64 i_to_w sb_to_i : Opcode
  sw_to_i u64_to_d u64_to_f u_to_d u_to_f u_to_i64 ub_to_i uw_to_i : Opcode
  unknown : ℕ → Opcode
