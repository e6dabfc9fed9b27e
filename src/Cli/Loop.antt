-- ===== src/Cli/Loop.antt =====
-- What the loop over the arguments does with each kind of them.
use tee_anchor.Prelude.{
  ◌≡◌, refl, ◌∙◌, some, List, [], ◌∷◌, ◌++◌, append-nil, Bytes, String, Result, tee_anchor_error,
  ok, err,
}
use tee_anchor.World.{World}
use tee_anchor.Cli.{Action, takes, flag, unknown, scan_args, exit_of, run_cli}

-- Options with their values, each accepted: what the loop makes of the defaults.
pub data Reads {A : Type 0} (act : Bytes → Action A) : List Bytes → A → A → Type 0 where
  done : (args : A) → Reads act [] args args
  option :
      (a v : Bytes) (f : Bytes → A → Result A) (rest : List Bytes) (args args' result : A)
      → act a ≡ takes f
      → f v args ≡ ok args'
      → Reads act rest args' result
      → Reads act (a ∷ v ∷ rest) args result
  switch :
      (a : Bytes) (f : A → A) (rest : List Bytes) (args result : A)
      → act a ≡ flag f
      → Reads act rest (f args) result
      → Reads act (a ∷ rest) args result

-- An argument that the loop refuses: an unknown one, or an option without its value.
pub data Refused {A : Type 0} (act : Bytes → Action A) : List Bytes → Type 0 where
  unknown_argument : (a : Bytes) (rest : List Bytes) → act a ≡ unknown → Refused act (a ∷ rest)
  missing_value : (a : Bytes) (f : Bytes → A → Result A) → act a ≡ takes f → Refused act (a ∷ [])

module _ {A : Type 0} (act : Bytes → Action A) where
  scan_args-flag :
      (a : Bytes) (f : A → A) (rest : List Bytes) (args : A)
      → act a ≡ flag f
      → scan_args act (a ∷ rest) args ≡ scan_args act rest (f args)
  unfolding scan_args
  scan_args-flag a f [] args e = rw (e, scan_args) refl
  scan_args-flag a f (v ∷ rest) args e = rw (e, scan_args) refl

  scan_args-Reads :
      (front : List Bytes) (args result : A) (rest : List Bytes)
      → Reads act front args result
      → scan_args act (front ++ rest) args ≡ scan_args act rest result
  unfolding scan_args
  scan_args-Reads front args result rest (done _) = refl
  scan_args-Reads front args result rest (option a v f rest' _ args' _ e set more) =
      rw (e, set) (scan_args-Reads rest' args' result rest more)
  scan_args-Reads front args result rest (switch a f rest' _ _ e more) =
      scan_args-flag a f (rest' ++ rest) args e ∙ scan_args-Reads rest' (f args) result rest more

  scan_args-Refused :
      (rest : List Bytes) (args : A)
      → Refused act rest
      → (x : String) × (scan_args act rest args ≡ err (tee_anchor_error x))
  unfolding scan_args
  scan_args-Refused rest args (unknown_argument a [] e) =
      ("unknown argument", rw (e, scan_args) refl)
  scan_args-Refused rest args (unknown_argument a (v ∷ more) e) =
      ("unknown argument", rw (e, scan_args) refl)
  scan_args-Refused rest args (missing_value a f e) =
      ("option requires a value", rw (e, scan_args) refl)

  scan_args-nil : (r : A) → scan_args act [] r ≡ ok (some r)
  unfolding scan_args
  scan_args-nil r = refl

  module _ (command : A → World → Result (Unit {0}) × World) where
    -- Where every argument is an option that the command knows, with a value that it takes, the command
    -- runs on the defaults as the options change them, one after the other, and its outcome is the exit
    -- code.
    pub run_cli-Reads :
        (argv : List Bytes) (defaults result : A) (w : World)
        → Reads act argv defaults result
        → run_cli act defaults command argv w ≡ exit_of (command result w)
    unfolding run_cli
    run_cli-Reads argv defaults result w h =
        rw
          (
            rw append-nil at (scan_args-Reads argv defaults result [] h) ∙ scan_args-nil result,
            run_cli,
          )
          refl

    -- An unknown argument, or an option at the end without its value, is refused, whatever options stand
    -- before it: the exit code is 1, and no file has changed.
    pub run_cli-Refused :
        (front rest : List Bytes) (defaults result : A) (w : World)
        → Reads act front defaults result
        → Refused act rest
        → run_cli act defaults command (front ++ rest) w ≡ (1, w)
    unfolding run_cli
    run_cli-Refused front rest defaults result w h refused =
        let (x, e) = scan_args-Refused rest result refused in
        rw (scan_args-Reads front defaults result rest h ∙ e, run_cli) refl
