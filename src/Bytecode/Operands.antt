-- ===== src/Bytecode/Operands.antt =====
-- Each opcode's name is found in the parser's chain of tests, and is read there in a way that fits how
-- it is written.
use gemini_system.Prelude.{Bool, true, false, some, text_beq, ◌≡◌, refl}
use gemini_system.Vm.Machine.{OpCode}
use gemini_system.Bytecode.Names.{Written, no_operand, op_code_name, written_as}
use gemini_system.Bytecode.Table.{Reading, nothing, named, target, handler, branch_of}

-- How the parser reads the operand of an opcode.
abbrev pub reading_of : OpCode → Written → Reading
reading_of OpCode.jump w = target
reading_of OpCode.jump_if_zero w = target
reading_of OpCode.call w = target
reading_of OpCode.set_on_error_handler w = handler
reading_of OpCode.invoke_builtin w = named
reading_of op no_operand = nothing
reading_of op Written.number = Reading.number
reading_of op Written.float = Reading.float
reading_of op Written.quoted = Reading.quoted
reading_of op Written.name = named
reading_of op Written.call_operand = Reading.call_operand

pub branch_of-op_code_name :
    (op : OpCode) → branch_of (op_code_name op) ≡ some (op, reading_of op (written_as op))
unfolding branch_of op_code_name written_as text_beq
branch_of-op_code_name OpCode.halt = refl
branch_of-op_code_name OpCode.push_int = refl
branch_of-op_code_name OpCode.push_flt = refl
branch_of-op_code_name OpCode.push_str = refl
branch_of-op_code_name OpCode.add = refl
branch_of-op_code_name OpCode.sub = refl
branch_of-op_code_name OpCode.mul = refl
branch_of-op_code_name OpCode.div = refl
branch_of-op_code_name OpCode.mod_op = refl
branch_of-op_code_name OpCode.eq = refl
branch_of-op_code_name OpCode.ne = refl
branch_of-op_code_name OpCode.lt = refl
branch_of-op_code_name OpCode.le = refl
branch_of-op_code_name OpCode.gt = refl
branch_of-op_code_name OpCode.ge = refl
branch_of-op_code_name OpCode.concat = refl
branch_of-op_code_name OpCode.dup = refl
branch_of-op_code_name OpCode.drop = refl
branch_of-op_code_name OpCode.print_int = refl
branch_of-op_code_name OpCode.print_str = refl
branch_of-op_code_name OpCode.print_val = refl
branch_of-op_code_name OpCode.print_eol = refl
branch_of-op_code_name OpCode.print_char = refl
branch_of-op_code_name OpCode.input_int = refl
branch_of-op_code_name OpCode.input_str = refl
branch_of-op_code_name OpCode.input_flt = refl
branch_of-op_code_name OpCode.coerce_int = refl
branch_of-op_code_name OpCode.coerce_flt = refl
branch_of-op_code_name OpCode.jump = refl
branch_of-op_code_name OpCode.jump_if_zero = refl
branch_of-op_code_name OpCode.call = refl
branch_of-op_code_name OpCode.return = refl
branch_of-op_code_name OpCode.for_setup = refl
branch_of-op_code_name OpCode.for_next = refl
branch_of-op_code_name OpCode.dim_array = refl
branch_of-op_code_name OpCode.load_arr = refl
branch_of-op_code_name OpCode.store_arr = refl
branch_of-op_code_name OpCode.mat_init = refl
branch_of-op_code_name OpCode.mat_copy = refl
branch_of-op_code_name OpCode.mat_load_from_rec = refl
branch_of-op_code_name OpCode.mat_store_to_rec = refl
branch_of-op_code_name OpCode.clear_vars = refl
branch_of-op_code_name OpCode.abs_int = refl
branch_of-op_code_name OpCode.sgn_int = refl
branch_of-op_code_name OpCode.seq_str = refl
branch_of-op_code_name OpCode.invoke_builtin = refl
branch_of-op_code_name OpCode.call_func = refl
branch_of-op_code_name OpCode.open_file = refl
branch_of-op_code_name OpCode.open_file_try = refl
branch_of-op_code_name OpCode.read_rec = refl
branch_of-op_code_name OpCode.read_rec_try = refl
branch_of-op_code_name OpCode.read_rec_u = refl
branch_of-op_code_name OpCode.read_rec_u_try = refl
branch_of-op_code_name OpCode.write_rec = refl
branch_of-op_code_name OpCode.write_rec_try = refl
branch_of-op_code_name OpCode.write_rec_u = refl
branch_of-op_code_name OpCode.write_rec_u_try = refl
branch_of-op_code_name OpCode.release_rec = refl
branch_of-op_code_name OpCode.read_next = refl
branch_of-op_code_name OpCode.read_next_try = refl
branch_of-op_code_name OpCode.read_v = refl
branch_of-op_code_name OpCode.read_v_try = refl
branch_of-op_code_name OpCode.write_v = refl
branch_of-op_code_name OpCode.write_v_try = refl
branch_of-op_code_name OpCode.extract_attr = refl
branch_of-op_code_name OpCode.resolve_dict_attr = refl
branch_of-op_code_name OpCode.chain = refl
branch_of-op_code_name OpCode.close_file = refl
branch_of-op_code_name OpCode.set_on_error_handler = refl
branch_of-op_code_name OpCode.load_var = refl
branch_of-op_code_name OpCode.store_var = refl

-- Whether a text that is written so can be read so.
abbrev pub agrees : Written → Reading → Bool
agrees no_operand nothing = true
agrees Written.number Reading.number = true
agrees Written.number target = true
agrees Written.number handler = true
agrees Written.float Reading.float = true
agrees Written.quoted Reading.quoted = true
agrees Written.quoted named = true
agrees Written.name named = true
agrees Written.call_operand Reading.call_operand = true
agrees _ _ = false

pub agrees-written_as :
    (op : OpCode) → agrees (written_as op) (reading_of op (written_as op)) ≡ true
unfolding written_as
agrees-written_as OpCode.halt = refl
agrees-written_as OpCode.push_int = refl
agrees-written_as OpCode.push_flt = refl
agrees-written_as OpCode.push_str = refl
agrees-written_as OpCode.add = refl
agrees-written_as OpCode.sub = refl
agrees-written_as OpCode.mul = refl
agrees-written_as OpCode.div = refl
agrees-written_as OpCode.mod_op = refl
agrees-written_as OpCode.eq = refl
agrees-written_as OpCode.ne = refl
agrees-written_as OpCode.lt = refl
agrees-written_as OpCode.le = refl
agrees-written_as OpCode.gt = refl
agrees-written_as OpCode.ge = refl
agrees-written_as OpCode.concat = refl
agrees-written_as OpCode.dup = refl
agrees-written_as OpCode.drop = refl
agrees-written_as OpCode.print_int = refl
agrees-written_as OpCode.print_str = refl
agrees-written_as OpCode.print_val = refl
agrees-written_as OpCode.print_eol = refl
agrees-written_as OpCode.print_char = refl
agrees-written_as OpCode.input_int = refl
agrees-written_as OpCode.input_str = refl
agrees-written_as OpCode.input_flt = refl
agrees-written_as OpCode.coerce_int = refl
agrees-written_as OpCode.coerce_flt = refl
agrees-written_as OpCode.jump = refl
agrees-written_as OpCode.jump_if_zero = refl
agrees-written_as OpCode.call = refl
agrees-written_as OpCode.return = refl
agrees-written_as OpCode.for_setup = refl
agrees-written_as OpCode.for_next = refl
agrees-written_as OpCode.dim_array = refl
agrees-written_as OpCode.load_arr = refl
agrees-written_as OpCode.store_arr = refl
agrees-written_as OpCode.mat_init = refl
agrees-written_as OpCode.mat_copy = refl
agrees-written_as OpCode.mat_load_from_rec = refl
agrees-written_as OpCode.mat_store_to_rec = refl
agrees-written_as OpCode.clear_vars = refl
agrees-written_as OpCode.abs_int = refl
agrees-written_as OpCode.sgn_int = refl
agrees-written_as OpCode.seq_str = refl
agrees-written_as OpCode.invoke_builtin = refl
agrees-written_as OpCode.call_func = refl
agrees-written_as OpCode.open_file = refl
agrees-written_as OpCode.open_file_try = refl
agrees-written_as OpCode.read_rec = refl
agrees-written_as OpCode.read_rec_try = refl
agrees-written_as OpCode.read_rec_u = refl
agrees-written_as OpCode.read_rec_u_try = refl
agrees-written_as OpCode.write_rec = refl
agrees-written_as OpCode.write_rec_try = refl
agrees-written_as OpCode.write_rec_u = refl
agrees-written_as OpCode.write_rec_u_try = refl
agrees-written_as OpCode.release_rec = refl
agrees-written_as OpCode.read_next = refl
agrees-written_as OpCode.read_next_try = refl
agrees-written_as OpCode.read_v = refl
agrees-written_as OpCode.read_v_try = refl
agrees-written_as OpCode.write_v = refl
agrees-written_as OpCode.write_v_try = refl
agrees-written_as OpCode.extract_attr = refl
agrees-written_as OpCode.resolve_dict_attr = refl
agrees-written_as OpCode.chain = refl
agrees-written_as OpCode.close_file = refl
agrees-written_as OpCode.set_on_error_handler = refl
agrees-written_as OpCode.load_var = refl
agrees-written_as OpCode.store_var = refl
