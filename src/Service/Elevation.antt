-- ===== src/Service/Elevation.antt =====
-- internal/service/elevation_args.go, and the command of internal/service/elevation_windows.go. What
-- WriteString writes is prepended to what the rest of the loop writes; a rune is a character.
pub mod Arguments
pub mod Literals
use Prim.Native.Char.{Char, code}
use Prim.Native.String as Str
use barrikade_lens.Common.{
  ℕ, zero, suc, ◌*◌, ◌+◌, ◌/◌, ◌%◌, Bool, true, false, ◌&&◌, ◌||◌, not, String, List, [], ◌∷◌, ◌==◌,
  eqb, map, if◌then◌else◌,
}

-- s + t
pub append : String → String → String
append Str.[] t = t
append (Str.◌∷◌ c s) t = Str.◌∷◌ c (append s t)

-- strings.Repeat("\\", n), before a text
unfoldable pub backslashes : ℕ → String → String
backslashes zero t = t
backslashes (suc n) t = Str.◌∷◌ "\\" (backslashes n t)

-- One of " \t\n\v\"".
unfoldable pub is_special : Char → Bool
is_special c =
    eqb (code c) 32 || eqb (code c) 9 || eqb (code c) 10 || eqb (code c) 11 || eqb (code c) 34

-- strings.ContainsAny(argument, " \t\n\v\"")
unfoldable pub has_special : String → Bool
has_special Str.[] = false
has_special (Str.◌∷◌ c s) = is_special c || has_special s

-- The loop of quoteWindowsArg, with the backslashes not yet written, and what it writes after that.
unfoldable pub escape : ℕ → String → String
escape n Str.[] = backslashes (n * 2) "\""
escape n (Str.◌∷◌ c s) =
    let later = escape (suc n) s in
    let written = Str.◌∷◌ c (escape 0 s) in
    if eqb (code c) 92
    then later
    else if eqb (code c) 34
    then backslashes (n * 2 + 1) written
    else backslashes n written

-- quoteWindowsArg
unfoldable pub quote_windows_arg : String → String
quote_windows_arg argument =
    if not (argument == "") && not (has_special argument)
    then argument
    else Str.◌∷◌ "\"" (escape 0 argument)

-- strings.Join(quoteWindowsArgs(args), " ")
pub command_line : List String → String
command_line [] = ""
command_line (a ∷ []) = quote_windows_arg a
command_line (a ∷ b ∷ rest) = append (quote_windows_arg a) (Str.◌∷◌ " " (command_line (b ∷ rest)))

-- strings.ReplaceAll(value, "'", "''"), before a text
unfoldable pub doubled : String → String → String
doubled Str.[] t = t
doubled (Str.◌∷◌ c s) t =
    let rest = doubled s t in
    if eqb (code c) 39 then Str.◌∷◌ "'" (Str.◌∷◌ "'" rest) else Str.◌∷◌ c rest

-- quotePowerShellLiteral
unfoldable pub quote_power_shell_literal : String → String
quote_power_shell_literal value = Str.◌∷◌ "'" (doubled value "'")

-- The bytes of the loop in encodePowerShell, the low one first.
unfoldable pub little_endian : List ℕ → List ℕ
little_endian [] = []
little_endian (unit ∷ units) = unit % 256 ∷ (unit / 256) % 256 ∷ little_endian units

-- encodePowerShell, with utf16.Encode and the encoder of base64
unfoldable pub encode_power_shell : (String → List ℕ) → (List ℕ → String) → String → String
encode_power_shell utf16 base64 script = base64 (little_endian (utf16 script))

-- `script` of EnsureInstallPrivileges
unfoldable pub elevation_script : String → List String → String
elevation_script executable args = append "$process = Start-Process -FilePath " (
    append (quote_power_shell_literal executable) (
      append " -ArgumentList " (
        append (quote_power_shell_literal (command_line args))
          " -Verb RunAs -Wait -PassThru; exit $process.ExitCode")))
