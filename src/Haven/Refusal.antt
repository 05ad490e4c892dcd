-- ===== src/Haven/Refusal.antt =====
-- The loop `first_refusal` over boxes (internal/haven/handlers.go, both RejectFilter handlers).
use cloistr_relay.Prelude.{List, [], ◌∷◌, ◌≡◌, refl, ◌↔◌, Option, none, arith, All}
use cloistr_relay.Nostr.{Message, accept}
use cloistr_relay.Haven.Handlers.{first_refusal}

module _ {A : Type 0} (P : A → Type 0) (check : A → Option Message) where
  pub first_refusal-All_if :
      (Q : A → Type 0)
      → ((x : A) → Q x → (check x ≡ none) ↔ P x)
      → (xs : List A) → All Q xs
      → (first_refusal check xs ≡ accept) ↔ All P xs
  unfolding first_refusal
  first_refusal-All_if Q each [] q = (λ _. tt, λ _. refl)
  first_refusal-All_if Q each (x ∷ xs) q =
      let ih = first_refusal-All_if Q each xs q.1 in ground (arith, ih, each x q.0)

  All-Unit : (xs : List A) → All (λ _. Unit {0}) xs
  All-Unit [] = tt
  All-Unit (x ∷ xs) = (tt, All-Unit xs)

  pub first_refusal-All :
      ((x : A) → (check x ≡ none) ↔ P x)
      → (xs : List A) → (first_refusal check xs ≡ accept) ↔ All P xs
  first_refusal-All each xs = first_refusal-All_if (λ _. Unit) (λ x _. each x) xs (All-Unit xs)

pub first_refusal-cong :
    {A : Type 0} (f g : A → Option Message) (xs : List A)
    → ((x : A) → f x ≡ g x)
    → first_refusal f xs ≡ first_refusal g xs
unfolding first_refusal
first_refusal-cong f g [] h = refl
first_refusal-cong f g (x ∷ xs) h = cc (h x, first_refusal-cong f g xs h)
