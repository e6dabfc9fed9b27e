-- ===== src/Cli/Ends.antt =====
-- The `cli_*` functions: the loop over the arguments, and the exit code of a command that ends.
use tee_anchor.Prelude.{
  ℕ, ◌≡◌, ◌⊎◌, inl, inr, refl, Bool, true, false, if◌then◌else◌, Option, none, some, List, [], ◌∷◌,
  Bytes, Result, ok, err, tee_anchor_error, std_exception, out_of_fuel, ◌>>=◌,
}
use tee_anchor.Prelude.Int.{ℤ}
use tee_anchor.Prelude.Endings.{Stops, Stops-ok, Stops-throw, Stops-bind, stops_rules}
use tee_anchor.World.{World}
use tee_anchor.Pki.Trim.{drop_front}
use tee_anchor.Cli.{
  exit_of_error, is_c_space, Action, takes, flag, help, unknown, sets, scan_args, stoi, to_int32,
  signed_digits, exit_of, run_cli,
}

-- What `cli_*` returns through its handlers.
abbrev pub IsPlainExit : ℕ → Type 0
IsPlainExit c = (c ≡ 0) ⊎ (c ≡ 1) ⊎ (c ≡ 2)

-- The setters of the options end.
pub data ActionStops {A : Type 0} : Action A → Type 0 where
  takes_stops :
      (f : Bytes → A → Result A)
      → ((v : Bytes) (args : A) → Stops (f v args))
      → ActionStops (takes f)
  flag_stops : (f : A → A) → ActionStops (flag f)
  help_stops : ActionStops help
  unknown_stops : ActionStops unknown

pub ActionStops-sets : {A : Type 0} (f : Bytes → A → A) → ActionStops (sets f)
ActionStops-sets f = takes_stops _ (λ v args. Stops-ok (f v args))

pub ActionStops-if :
    {A : Type 0} (b : Bool) (x y : Action A)
    → ActionStops x
    → ActionStops y
    → ActionStops (if b then x else y)
ActionStops-if true x y hx hy = hx
ActionStops-if false x y hx hy = hy

to_int32-Stops : (negative : Bool) (s : Bytes) → Stops (to_int32 negative s)
unfolding to_int32
to_int32-Stops negative s = search stops_rules depth 6

signed_digits-Stops : (s : Bytes) → Stops (signed_digits s)
unfolding signed_digits
signed_digits-Stops [] = to_int32-Stops false []
signed_digits-Stops (c ∷ s) = search (stops_rules, to_int32-Stops)

pub stoi-Stops : (s : Bytes) → Stops (stoi s)
unfolding stoi
stoi-Stops s = signed_digits-Stops (drop_front is_c_space s)

-- A setter of the validity.
pub ActionStops-stoi :
    {A : Type 0} (set : ℤ → A → A)
    → ActionStops {A = A} (takes (λ v args. stoi v >>= λ n. ok (set n args)))
ActionStops-stoi set =
    takes_stops _ (λ v args. Stops-bind _ _ (stoi-Stops v) (λ n. Stops-ok (set n args)))

pub ruleset option_rules =
    (ActionStops-if, ActionStops-sets, ActionStops-stoi, flag_stops, help_stops, unknown_stops)

-- The `if`/`else if` chain, with what it does in each case.
Stops-action :
    {A B : Type 0} (x : Action A) (taken : (Bytes → A → Result A) → Result B)
    (flagged : (A → A) → Result B) (helped refused : Result B)
    → ActionStops x
    → ((f : Bytes → A → Result A) → ((v : Bytes) (args : A) → Stops (f v args)) → Stops (taken f))
    → ((f : A → A) → Stops (flagged f))
    → Stops helped
    → Stops refused
    → Stops (elim x [ takes f ↦ taken f | flag f ↦ flagged f | help ↦ helped | unknown ↦ refused ])
Stops-action _ _ _ _ _ (takes_stops f h) ht hf hh hu = ht f h
Stops-action _ _ _ _ _ (flag_stops f) ht hf hh hu = hf f
Stops-action _ _ _ _ _ help_stops ht hf hh hu = hh
Stops-action _ _ _ _ _ unknown_stops ht hf hh hu = hu

pub scan_args-Stops :
    {A : Type 0} (act : Bytes → Action A)
    → ((a : Bytes) → ActionStops (act a))
    → (argv : List Bytes) (args : A) → Stops (scan_args act argv args)
unfolding scan_args
scan_args-Stops act acts [] args = Stops-ok _
scan_args-Stops act acts (a ∷ []) args =
    Stops-action (act a) _ _ _ _ (acts a) (λ f h. Stops-throw _) (λ f. Stops-ok _) (Stops-ok _)
      (Stops-throw _)
scan_args-Stops act acts (a ∷ v ∷ rest) args =
    Stops-action (act a) _ _ _ _ (acts a)
      (λ f h. Stops-bind _ _ (h v args) (λ args'. scan_args-Stops act acts rest args'))
      (λ f. scan_args-Stops act acts (v ∷ rest) (f args)) (Stops-ok _) (Stops-throw _)

exit_of-IsPlainExit : (r : Result (Unit {0})) (w : World) → Stops r → IsPlainExit (exit_of (r, w)).0
exit_of-IsPlainExit (ok u) w h = inl refl
exit_of-IsPlainExit (err (tee_anchor_error msg)) w h = inr (inl refl)
exit_of-IsPlainExit (err (std_exception msg)) w h = inr (inr refl)
exit_of-IsPlainExit (err out_of_fuel) w h = absurd h.ends

-- A command that ends is run to one of the three exit codes of the handlers.
pub run_cli-IsPlainExit :
    {A : Type 0} (act : Bytes → Action A) (defaults : A)
    (command : A → World → Result (Unit {0}) × World) (argv : List Bytes) (w : World)
    → ((a : Bytes) → ActionStops (act a))
    → ((args : A) → Stops (command args w).0)
    → IsPlainExit (run_cli act defaults command argv w).0
unfolding run_cli
run_cli-IsPlainExit {A = A} act defaults command argv w acts ends =
    scanned (scan_args act argv defaults) (scan_args-Stops act acts argv defaults)
  where
    scanned :
        (r : Result (Option A))
        → Stops r
        → IsPlainExit
            (elim r as (λ _. ℕ × World) [
              | ok none ↦ (0, w)
              | ok (some args) ↦ exit_of (command args w)
              | err e ↦ (exit_of_error e, w)
            ]).0
    scanned (ok none) h = inl refl
    scanned (ok (some args)) h =
        exit_of-IsPlainExit (command args w).0 (command args w).1 (ends args)
    scanned (err e) h = exit_of-IsPlainExit (err e) w (record { ends = h.ends })
