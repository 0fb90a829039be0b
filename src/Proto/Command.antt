-- ===== src/Proto/Command.antt =====
-- The command line of a protocol 2 request (mizzle-proto/src/command.rs).
use mizzle.Base.Result.{Result}
use mizzle.Base.{
  Bytes, List, [], ◌∷◌, ok, err, none, some, codes, strip_prefix, eq_bytes, if◌then◌else◌,
}
use mizzle.Proto.Limits.{
  ProtoError, unexpected_eof, broken_line, no_data, expected_command, unrecognised_command,
}
use mizzle.Proto.Lines.{Line, data_line, flush, delimiter, response_end, broken, chomp}

pub data Command : Type 0 where
  fetch : Command
  list_refs : Command
  empty : Command

unfoldable pub command_of : Bytes → Result ProtoError Command
command_of command =
    if eq_bytes command (codes "ls-refs")
    then ok list_refs
    else if eq_bytes command (codes "fetch")
    then ok fetch
    else err (unrecognised_command command)

unfoldable pub read_command : List Line → Result ProtoError (Command × List Line)
unfolding command_of
read_command [] = err unexpected_eof
read_command (broken ∷ ls) = err broken_line
read_command (flush ∷ ls) = ok (empty, ls)
read_command (delimiter ∷ ls) = err no_data
read_command (response_end ∷ ls) = err no_data
read_command (data_line d ∷ ls) = elim (strip_prefix (codes "command=") (chomp d)) [
  | none ↦ err expected_command
  | some command ↦ elim (command_of command) [ ok c ↦ ok (c, ls) | err e ↦ err e ]
]
