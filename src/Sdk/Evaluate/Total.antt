-- ===== src/Sdk/Evaluate/Total.antt =====
-- `Evaluate` of sdk/go/flageval/eval.go comes to a result.
use feature_flags.Sdk.Evaluate.Serves.{evaluate_from-IsServed, IsServed, IsSound}
use feature_flags.Sdk.Evaluate.{evaluate_from, evaluate}
use feature_flags.Sdk.Attributes.{Context}
use feature_flags.Sdk.Types.{Result, Flag, Store}
use feature_flags.Sdk.Evaluate.Depth.{evaluate_from-Ends, IsShallow, IsBounded, unvisited}
use feature_flags.Sdk.Run.Outcomes.{Gives, Ends}
use feature_flags.Sdk.Values.{Go}
use feature_flags.Sdk.Run.{lookup, done, Run, out_of_fuel, panicked}
use feature_flags.Base.{
  ◌∷◌, [], suc, arith, suc, refl, ap, length, ◌≡◌, ℕ, String, List, [], ◌∷◌, some,
}

result-of {ℓ} :
    {A : Type ℓ} (P : A → Type 0) (m : Run A) → Ends m → Gives P m → (a : A) × (m ≡ done a) × P a
result-of P (done a) ends gives = (a, refl, gives)
result-of P panicked ends gives = elim gives [ ]
result-of P out_of_fuel ends gives = elim ends [ ]

unvisited_none {ℓ} : {V : Type ℓ} (flags : List (String × V)) → unvisited [] flags ≡ length flags
unvisited_none [] = refl
unvisited_none (f ∷ flags) = ap suc (unvisited_none flags)

module _ ⦃g : Go⦄ (rank : String → ℕ) (store : Store) (ctx : Context) (depth : ℕ) where
  -- Where the segments of the store are layered, the rules of its flags name segments of a rank below
  -- `depth`, and the indices of its flags are in range, a flag that is as good is evaluated for any
  -- context within a depth of one more than the store has flags, cyclic prerequisites included: the
  -- evaluation does not panic, and serves one of the flag's variations with its value.
  pub evaluate_returns :
      (flag : Flag)
      → IsBounded rank store ctx depth
      → ((k : String) (pf : Flag) → lookup k store.flags ≡ some pf → IsSound pf)
      → IsShallow rank store ctx depth flag
      → IsSound flag
      → (res : Result) × (evaluate store ctx depth (suc (length store.flags)) flag ≡ done res)
        × IsServed flag res
  unfolding evaluate
  evaluate_returns flag bounded sound shallow good =
      let fuel = suc (length store.flags) in
      let few = unvisited_none store.flags in
      result-of (IsServed flag) (evaluate_from store ctx depth fuel flag [])
        (evaluate_from-Ends rank store ctx depth bounded fuel flag [] shallow (omega arith))
        (evaluate_from-IsServed store ctx depth sound fuel flag [] good)
