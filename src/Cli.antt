-- ===== src/Cli.antt =====
-- What the `cli_*` functions of the subcommands share: the loop over `argv` with `need_value`,
-- `std::stoi`, and the exit codes of their handlers.
pub mod Ends
pub mod Loop
use tee_anchor.Prelude.{
  ℕ, zero, suc, ◌+◌, ◌-◌, ◌*◌, ◌^◌, Bool, true, false, ◌&&◌, ◌||◌, Option, none, some, List, [],
  ◌∷◌, ltb, leb, ◌==◌, if◌then◌else◌, Bytes, String, Result, ok, err, throw, tee_anchor_error,
  std_exception, out_of_fuel, Error, ◌>>=◌, ◌>>◌,
}
use tee_anchor.Prelude.Int.{ℤ, pos, negsuc}
use tee_anchor.Pki.Trim.{drop_front}
use tee_anchor.World.{World}

-- What an `if`/`else if` chain does on one argument: an option with a value, a flag, the help text,
-- or none of them.
pub data Action (A : Type 0) : Type 0 where
  takes : (Bytes → A → Result A) → Action A
  flag : (A → A) → Action A
  help unknown : Action A

-- A setter that cannot fail.
abbrev pub sets : {A : Type 0} → (Bytes → A → A) → Action A
sets f = takes (λ v a. ok (f v a))

-- The loop. `none` is the return from within it after the help text.
unfoldable pub scan_args : {A : Type 0} → (Bytes → Action A) → List Bytes → A → Result (Option A)
scan_args act [] args = ok (some args)
scan_args act (a ∷ []) args = elim (act a) [
  | takes f ↦ throw "option requires a value"
  | flag f ↦ ok (some (f args))
  | help ↦ ok none
  | unknown ↦ throw "unknown argument"
]
scan_args act (a ∷ v ∷ rest) args = elim (act a) [
  | takes f ↦ (do args' ← f v args; scan_args act rest args')
  | flag f ↦ scan_args act (v ∷ rest) (f args)
  | help ↦ ok none
  | unknown ↦ throw "unknown argument"
]

-- The C library's `isspace`.
unfoldable pub is_c_space : ℕ → Bool
is_c_space c = c == 32 || (leb 9 c && leb c 13)

unfoldable pub is_digit : ℕ → Bool
is_digit c = leb b'0' c && leb c b'9'

-- The number that the leading digits write, after those that made `n`.
unfoldable pub digits_from : ℕ → Bytes → ℕ
unfolding is_digit
digits_from n [] = n
digits_from n (c ∷ s) =
    let more = digits_from (n * 10 + (c - b'0')) s in if is_digit c then more else n

unfoldable pub starts_digit : Bytes → Bool
unfolding is_digit
starts_digit [] = false
starts_digit (c ∷ s) = is_digit c

-- The digits behind the sign, as an `int`.
unfoldable pub to_int32 : Bool → Bytes → Result ℤ
to_int32 negative s =
    let n = digits_from 0 s in
    if starts_digit s
    then (if negative
        then (if n == 0
            then ok (pos 0)
            else if leb n (2 ^ 31)
            then ok (negsuc (n - 1))
            else err (std_exception "stoi: out_of_range"))
        else (if ltb n (2 ^ 31) then ok (pos n) else err (std_exception "stoi: out_of_range")))
    else err (std_exception "stoi: invalid_argument")

unfoldable pub signed_digits : Bytes → Result ℤ
signed_digits [] = to_int32 false []
signed_digits (c ∷ s) =
    if c == b'-'
    then to_int32 true s
    else if c == b'+'
    then to_int32 false s
    else to_int32 false (c ∷ s)

-- `std::stoi` skips blanks, reads a sign and digits, and ignores what follows.
unfoldable pub stoi : Bytes → Result ℤ
unfolding drop_front is_c_space signed_digits to_int32 digits_from starts_digit
stoi s = signed_digits (drop_front is_c_space s)

-- `catch (const TeeAnchorError&) { return 1; } catch (const std::exception&) { return 2; }`. The last
-- case is no exit of the program.
abbrev pub exit_of_error : Error → ℕ
exit_of_error (tee_anchor_error msg) = 1
exit_of_error (std_exception msg) = 2
exit_of_error out_of_fuel = 3

abbrev pub exit_of : Result (Unit {0}) × World → ℕ × World
exit_of (ok u, w) = (0, w)
exit_of (err e, w) = (exit_of_error e, w)

-- The body of a `cli_*` function: the loop, and then the command, within one `try`.
unfoldable pub run_cli :
    {A : Type 0}
    → (Bytes → Action A)
    → A
    → (A → World → Result (Unit {0}) × World)
    → List Bytes
    → World
    → ℕ × World
run_cli act defaults command argv w = elim (scan_args act argv defaults) [
  | ok none ↦ (0, w)
  | ok (some args) ↦ exit_of (command args w)
  | err e ↦ (exit_of_error e, w)
]
