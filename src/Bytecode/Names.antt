-- ===== src/Bytecode/Names.antt =====
-- The names of the opcodes, and what operand each has in the text form (InstructionPrint.cpp,
-- BytecodeText.cpp and Parser.cpp of core/vm).
use gemini_system.Prelude.{Text, codes}
use gemini_system.Vm.Machine.{OpCode}

-- How an operand is written: `number`, `float`, `quoted` and `call_operand` for what the names say,
-- `name` for a text without quotes.
pub data Written : Type 0 where
  no_operand number float quoted name call_operand : Written

unfoldable pub op_code_name : OpCode → Text
op_code_name OpCode.halt = codes "HALT"
op_code_name OpCode.push_int = codes "PUSH_INT"
op_code_name OpCode.push_flt = codes "PUSH_FLT"
op_code_name OpCode.push_str = codes "PUSH_STR"
op_code_name OpCode.add = codes "ADD"
op_code_name OpCode.sub = codes "SUB"
op_code_name OpCode.mul = codes "MUL"
op_code_name OpCode.div = codes "DIV"
op_code_name OpCode.mod_op = codes "MOD"
op_code_name OpCode.eq = codes "EQ"
op_code_name OpCode.ne = codes "NE"
op_code_name OpCode.lt = codes "LT"
op_code_name OpCode.le = codes "LE"
op_code_name OpCode.gt = codes "GT"
op_code_name OpCode.ge = codes "GE"
op_code_name OpCode.concat = codes "CONCAT"
op_code_name OpCode.dup = codes "DUP"
op_code_name OpCode.drop = codes "DROP"
op_code_name OpCode.print_int = codes "PRINT_INT"
op_code_name OpCode.print_str = codes "PRINT_STR"
op_code_name OpCode.print_val = codes "PRINT_VAL"
op_code_name OpCode.print_eol = codes "PRINT_EOL"
op_code_name OpCode.print_char = codes "PRINT_CHAR"
op_code_name OpCode.input_int = codes "INPUT_INT"
op_code_name OpCode.input_str = codes "INPUT_STR"
op_code_name OpCode.input_flt = codes "INPUT_FLT"
op_code_name OpCode.coerce_int = codes "COERCE_INT"
op_code_name OpCode.coerce_flt = codes "COERCE_FLT"
op_code_name OpCode.jump = codes "JUMP"
op_code_name OpCode.jump_if_zero = codes "JZ"
op_code_name OpCode.call = codes "CALL"
op_code_name OpCode.return = codes "RETURN"
op_code_name OpCode.for_setup = codes "FOR_SETUP"
op_code_name OpCode.for_next = codes "FOR_NEXT"
op_code_name OpCode.dim_array = codes "DIM_ARRAY"
op_code_name OpCode.load_arr = codes "LOAD_ARR"
op_code_name OpCode.store_arr = codes "STORE_ARR"
op_code_name OpCode.mat_init = codes "MAT_INIT"
op_code_name OpCode.mat_copy = codes "MAT_COPY"
op_code_name OpCode.mat_load_from_rec = codes "MAT_LOAD_FROM_REC"
op_code_name OpCode.mat_store_to_rec = codes "MAT_STORE_TO_REC"
op_code_name OpCode.clear_vars = codes "CLEAR_VARS"
op_code_name OpCode.abs_int = codes "ABS_INT"
op_code_name OpCode.sgn_int = codes "SGN_INT"
op_code_name OpCode.seq_str = codes "SEQ_STR"
op_code_name OpCode.invoke_builtin = codes "INVOKE_BUILTIN"
op_code_name OpCode.call_func = codes "CALL_FUNC"
op_code_name OpCode.open_file = codes "OPEN_FILE"
op_code_name OpCode.open_file_try = codes "OPEN_FILE_TRY"
op_code_name OpCode.read_rec = codes "READ_REC"
op_code_name OpCode.read_rec_try = codes "READ_REC_TRY"
op_code_name OpCode.read_rec_u = codes "READ_REC_U"
op_code_name OpCode.read_rec_u_try = codes "READ_REC_U_TRY"
op_code_name OpCode.write_rec = codes "WRITE_REC"
op_code_name OpCode.write_rec_try = codes "WRITE_REC_TRY"
op_code_name OpCode.write_rec_u = codes "WRITE_REC_U"
op_code_name OpCode.write_rec_u_try = codes "WRITE_REC_U_TRY"
op_code_name OpCode.release_rec = codes "RELEASE_REC"
op_code_name OpCode.read_next = codes "READ_NEXT"
op_code_name OpCode.read_next_try = codes "READ_NEXT_TRY"
op_code_name OpCode.read_v = codes "READ_V"
op_code_name OpCode.read_v_try = codes "READ_V_TRY"
op_code_name OpCode.write_v = codes "WRITE_V"
op_code_name OpCode.write_v_try = codes "WRITE_V_TRY"
op_code_name OpCode.extract_attr = codes "EXTRACT_ATTR"
op_code_name OpCode.resolve_dict_attr = codes "RESOLVE_DICT_ATTR"
op_code_name OpCode.chain = codes "CHAIN"
op_code_name OpCode.close_file = codes "CLOSE_FILE"
op_code_name OpCode.set_on_error_handler = codes "SET_ON_ERROR_HANDLER"
op_code_name OpCode.load_var = codes "LOAD_VAR"
op_code_name OpCode.store_var = codes "STORE_VAR"

unfoldable pub written_as : OpCode → Written
written_as OpCode.push_int = number
written_as OpCode.push_flt = float
written_as OpCode.push_str = quoted
written_as OpCode.jump = number
written_as OpCode.jump_if_zero = number
written_as OpCode.call = number
written_as OpCode.for_setup = name
written_as OpCode.for_next = name
written_as OpCode.dim_array = name
written_as OpCode.load_arr = name
written_as OpCode.store_arr = name
written_as OpCode.mat_init = name
written_as OpCode.mat_copy = name
written_as OpCode.mat_load_from_rec = name
written_as OpCode.mat_store_to_rec = name
written_as OpCode.invoke_builtin = quoted
written_as OpCode.call_func = call_operand
written_as OpCode.open_file = name
written_as OpCode.open_file_try = name
written_as OpCode.read_rec = name
written_as OpCode.read_rec_try = name
written_as OpCode.read_rec_u = name
written_as OpCode.read_rec_u_try = name
written_as OpCode.write_rec = name
written_as OpCode.write_rec_try = name
written_as OpCode.write_rec_u = name
written_as OpCode.write_rec_u_try = name
written_as OpCode.release_rec = name
written_as OpCode.read_next = name
written_as OpCode.read_next_try = name
written_as OpCode.read_v = name
written_as OpCode.read_v_try = name
written_as OpCode.write_v = name
written_as OpCode.write_v_try = name
written_as OpCode.resolve_dict_attr = name
written_as OpCode.close_file = name
written_as OpCode.set_on_error_handler = number
written_as OpCode.load_var = name
written_as OpCode.store_var = name
written_as _ = no_operand
