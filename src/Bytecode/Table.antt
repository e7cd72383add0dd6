-- ===== src/Bytecode/Table.antt =====
-- The opcodes by their names, as the branches of `Parser::parse` test them, and what operand each
-- branch reads.
use gemini_system.Prelude.{Text, codes, [], ◌∷◌, ◌++◌, text_eq, Option}
use gemini_system.Prelude.Assoc.{Assoc, find}
use gemini_system.Vm.Machine.{OpCode}

-- `named` and `handler` must not be empty; `target` is a number or a label.
pub data Reading : Type 0 where
  nothing number float quoted named target handler call_operand : Reading

-- Constants, arithmetic, printing and reading.
abbrev pub stack_branches : Assoc Text (OpCode × Reading)
stack_branches =
    (codes "HALT", (OpCode.halt, nothing))
    ∷ (codes "PUSH_INT", (OpCode.push_int, number))
    ∷ (codes "PUSH_FLT", (OpCode.push_flt, float))
    ∷ (codes "PUSH_STR", (OpCode.push_str, quoted))
    ∷ (codes "ADD", (OpCode.add, nothing))
    ∷ (codes "SUB", (OpCode.sub, nothing))
    ∷ (codes "MUL", (OpCode.mul, nothing))
    ∷ (codes "DIV", (OpCode.div, nothing))
    ∷ (codes "MOD", (OpCode.mod_op, nothing))
    ∷ (codes "EQ", (OpCode.eq, nothing))
    ∷ (codes "NE", (OpCode.ne, nothing))
    ∷ (codes "LT", (OpCode.lt, nothing))
    ∷ (codes "LE", (OpCode.le, nothing))
    ∷ (codes "GT", (OpCode.gt, nothing))
    ∷ (codes "GE", (OpCode.ge, nothing))
    ∷ (codes "DUP", (OpCode.dup, nothing))
    ∷ (codes "DROP", (OpCode.drop, nothing))
    ∷ (codes "CONCAT", (OpCode.concat, nothing))
    ∷ (codes "PRINT_INT", (OpCode.print_int, nothing))
    ∷ (codes "PRINT_STR", (OpCode.print_str, nothing))
    ∷ (codes "PRINT_VAL", (OpCode.print_val, nothing))
    ∷ (codes "PRINT_EOL", (OpCode.print_eol, nothing))
    ∷ (codes "PRINT_CHAR", (OpCode.print_char, nothing))
    ∷ (codes "INPUT_INT", (OpCode.input_int, nothing))
    ∷ (codes "INPUT_STR", (OpCode.input_str, nothing))
    ∷ (codes "INPUT_FLT", (OpCode.input_flt, nothing))
    ∷ (codes "COERCE_INT", (OpCode.coerce_int, nothing))
    ∷ (codes "COERCE_FLT", (OpCode.coerce_flt, nothing))
    ∷ []

-- Control flow, loops, arrays and calls.
abbrev pub program_branches : Assoc Text (OpCode × Reading)
program_branches =
    (codes "JUMP", (OpCode.jump, target))
    ∷ (codes "JZ", (OpCode.jump_if_zero, target))
    ∷ (codes "CALL", (OpCode.call, target))
    ∷ (codes "RETURN", (OpCode.return, nothing))
    ∷ (codes "FOR_SETUP", (OpCode.for_setup, named))
    ∷ (codes "FOR_NEXT", (OpCode.for_next, named))
    ∷ (codes "DIM_ARRAY", (OpCode.dim_array, named))
    ∷ (codes "LOAD_ARR", (OpCode.load_arr, named))
    ∷ (codes "STORE_ARR", (OpCode.store_arr, named))
    ∷ (codes "MAT_INIT", (OpCode.mat_init, named))
    ∷ (codes "MAT_COPY", (OpCode.mat_copy, named))
    ∷ (codes "MAT_LOAD_FROM_REC", (OpCode.mat_load_from_rec, named))
    ∷ (codes "MAT_STORE_TO_REC", (OpCode.mat_store_to_rec, named))
    ∷ (codes "CLEAR_VARS", (OpCode.clear_vars, nothing))
    ∷ (codes "ABS_INT", (OpCode.abs_int, nothing))
    ∷ (codes "SGN_INT", (OpCode.sgn_int, nothing))
    ∷ (codes "SEQ_STR", (OpCode.seq_str, nothing))
    ∷ (codes "INVOKE_BUILTIN", (OpCode.invoke_builtin, named))
    ∷ (codes "CALL_FUNC", (OpCode.call_func, call_operand))
    ∷ []

-- Files and records.
abbrev pub record_branches : Assoc Text (OpCode × Reading)
record_branches =
    (codes "OPEN_FILE", (OpCode.open_file, named))
    ∷ (codes "OPEN_FILE_TRY", (OpCode.open_file_try, named))
    ∷ (codes "READ_REC", (OpCode.read_rec, named))
    ∷ (codes "READ_REC_TRY", (OpCode.read_rec_try, named))
    ∷ (codes "READ_REC_U", (OpCode.read_rec_u, named))
    ∷ (codes "READ_REC_U_TRY", (OpCode.read_rec_u_try, named))
    ∷ (codes "WRITE_REC", (OpCode.write_rec, named))
    ∷ (codes "WRITE_REC_TRY", (OpCode.write_rec_try, named))
    ∷ (codes "WRITE_REC_U", (OpCode.write_rec_u, named))
    ∷ (codes "WRITE_REC_U_TRY", (OpCode.write_rec_u_try, named))
    ∷ (codes "RELEASE_REC", (OpCode.release_rec, named))
    ∷ (codes "SET_ON_ERROR_HANDLER", (OpCode.set_on_error_handler, handler))
    ∷ []

-- Cursors, attributes and variables.
abbrev pub field_branches : Assoc Text (OpCode × Reading)
field_branches =
    (codes "READ_NEXT", (OpCode.read_next, named))
    ∷ (codes "READ_NEXT_TRY", (OpCode.read_next_try, named))
    ∷ (codes "READ_V", (OpCode.read_v, named))
    ∷ (codes "READ_V_TRY", (OpCode.read_v_try, named))
    ∷ (codes "RESOLVE_DICT_ATTR", (OpCode.resolve_dict_attr, named))
    ∷ (codes "WRITE_V", (OpCode.write_v, named))
    ∷ (codes "WRITE_V_TRY", (OpCode.write_v_try, named))
    ∷ (codes "EXTRACT_ATTR", (OpCode.extract_attr, nothing))
    ∷ (codes "CHAIN", (OpCode.chain, nothing))
    ∷ (codes "CLOSE_FILE", (OpCode.close_file, named))
    ∷ (codes "LOAD_VAR", (OpCode.load_var, named))
    ∷ (codes "STORE_VAR", (OpCode.store_var, named))
    ∷ []

-- The branches of the chain, in its order.
abbrev pub branches : Assoc Text (OpCode × Reading)
branches = stack_branches ++ (program_branches ++ (record_branches ++ field_branches))

unfoldable pub branch_of : Text → Option (OpCode × Reading)
unfolding find
branch_of opcode = find opcode branches
