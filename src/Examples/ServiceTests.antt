-- ===== src/Examples/ServiceTests.antt =====
-- Tests of internal/service/elevation_args.go, and instances of its theorems.
use barrikade_lens.Common.{String, List, [], ◌∷◌, some, ◌≡◌, refl, arith}
use barrikade_lens.Service.Elevation.{
  append, backslashes, is_special, has_special, escape, quote_windows_arg, command_line, doubled,
  quote_power_shell_literal, little_endian,
}
use barrikade_lens.Service.Elevation.Arguments.Lines.{read_arguments, read_arguments-command_line}
use barrikade_lens.Service.Elevation.Literals.{
  read_inside, read_literal, read_literal-quote_power_shell_literal,
}

quoted_path : quote_windows_arg "C:\\a b\\" ≡ "\"C:\\a b\\\\\""
unfolding quote_windows_arg has_special is_special escape backslashes
quoted_path = refl

little_endian_units : little_endian (258 ∷ 65 ∷ []) ≡ 2 ∷ 1 ∷ 65 ∷ 0 ∷ []
unfolding little_endian
little_endian_units = refl

abbrev arguments : List String
arguments = "install" ∷ "" ∷ "a \"b\\" ∷ "c\\" ∷ []

read_arguments-command_line_example : read_arguments 4 (command_line arguments) ≡ arguments
read_arguments-command_line_example = read_arguments-command_line 4 arguments (ground arith)

read_literal-quote_power_shell_literal_example :
    read_literal (append (quote_power_shell_literal "it's") " -Wait") ≡ some ("it's", " -Wait")
read_literal-quote_power_shell_literal_example =
    read_literal-quote_power_shell_literal "it's" " -Wait" refl refl

-- A curly quotation mark ends the literal.
curly : read_literal (quote_power_shell_literal "O’;x") ≡ some ("O", ";x'")
unfolding read_literal read_inside quote_power_shell_literal doubled
curly = refl
