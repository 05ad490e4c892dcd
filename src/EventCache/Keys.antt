-- ===== src/EventCache/Keys.antt =====
-- The keys of internal/eventcache/eventcache.go tell entries apart.
use Prim.Native.Char.{Char, code}
use Prim.Native.String.{◌++◌ as append}
use mathlib.Core.Path.{ap₂}
use text.Mathlib.TextLemmas.{append_cancel_left, append_inj, nil-append, cons-append}
use cloistr_relay.Prelude.{
  ℕ, ◌≡◌, refl, sym, ap, ◌∙◌, String, Bool, true, not, ◌&&◌, ◌==◌, nat_eq, eq_iff, arith,
}
use cloistr_relay.Decimal.{ℤ, pos, itoa, atoi, in_range, atoi-itoa}
use cloistr_relay.EventCache.Cache.{Config, event_key, pubkey_kind_key}

-- No colon.
unfoldable pub is_plain : String → Bool
is_plain String.[] = true
is_plain (String.◌∷◌ c s) = not (code c == 58) && is_plain s

-- `:` as a character.
abbrev colon : Char
colon = ":"

colon-append : (r : String) → append ":" r ≡ String.◌∷◌ colon r
colon-append r = cons-append colon "" r ∙ ap (String.◌∷◌ colon) (nil-append r)

cons_inj : (c d : Char) (s t : String) → String.◌∷◌ c s ≡ String.◌∷◌ d t → (c ≡ d) × (s ≡ t)
cons_inj c d s t e = (cc, cc)

plain_tail : (c : Char) (p : String) → is_plain (String.◌∷◌ c p) ≡ true → is_plain p ≡ true
unfolding is_plain
plain_tail c p h = ground arith

not-plain_colon : (c : Char) (p : String) → colon ≡ c → is_plain (String.◌∷◌ c p) ≡ true → ⊥
unfolding is_plain
not-plain_colon c p e h = cc (rw (← e) at h)

-- What stands before the first colon, and behind it, is determined.
split_colon :
    (p q r s : String)
    → is_plain p ≡ true
    → is_plain q ≡ true
    → append p (append ":" r) ≡ append q (append ":" s)
    → (p ≡ q) × (r ≡ s)
split_colon String.[] String.[] r s hp hq e =
    (refl, append_cancel_left ":" r s (sym (nil-append _) ∙ e ∙ nil-append _))
split_colon String.[] (String.◌∷◌ d q) r s hp hq e =
    let h =
      cons_inj colon d r (append q (append ":" s))
        (sym (colon-append r) ∙ sym (nil-append _) ∙ e ∙ cons-append d q _) in
    absurd (not-plain_colon d q h.0 hq)
split_colon (String.◌∷◌ c p) String.[] r s hp hq e =
    let h =
      cons_inj colon c s (append p (append ":" r))
        (sym (colon-append s) ∙ sym (nil-append _) ∙ sym e ∙ cons-append c p _) in
    absurd (not-plain_colon c p h.0 hp)
split_colon (String.◌∷◌ c p) (String.◌∷◌ d q) r s hp hq e =
    let h =
      cons_inj c d (append p (append ":" r)) (append q (append ":" s))
        (sym (cons-append c p _) ∙ e ∙ cons-append d q _) in
    let rest = split_colon p q r s (plain_tail c p hp) (plain_tail d q hq) h.1 in
    (ap₂ String.◌∷◌ h.0 rest.0, rest.1)

itoa_inj : (a b : ℤ) → in_range a ≡ true → in_range b ≡ true → itoa a ≡ itoa b → a ≡ b
itoa_inj a b ha hb e = cc (ap atoi e, atoi-itoa a ha, atoi-itoa b hb)

pub event_key_inj : (cfg : Config) (a b : String) → event_key cfg a ≡ event_key cfg b → a ≡ b
unfolding event_key
event_key_inj cfg a b e =
    append_cancel_left "id:" a b
      (append_cancel_left cfg.key_prefix (append "id:" a) (append "id:" b) e)

id≠pk : (x y : String) → append "id:" x ≡ append "pk:" y → ⊥
id≠pk x y e =
    let h : ◌≡◌ {A = String} "id:" "pk:" = (append_inj {s₁ = "id:"} {s₂ = "pk:"} e refl).0 in
    cc ((eq_iff "id:" "pk:").1 h)

pub event_key-ne :
    (cfg : Config) (id pubkey : String) (kind : ℕ)
    → event_key cfg id ≡ pubkey_kind_key cfg pubkey kind
    → ⊥
unfolding event_key pubkey_kind_key
event_key-ne cfg id pubkey kind e = id≠pk _ _ (append_cancel_left cfg.key_prefix _ _ e)

pub pubkey_kind_key_inj :
    (cfg : Config) (a b : String) (k l : ℕ)
    → is_plain a ≡ true
    → is_plain b ≡ true
    → in_range (pos k) ≡ true
    → in_range (pos l) ≡ true
    → pubkey_kind_key cfg a k ≡ pubkey_kind_key cfg b l
    → (a ≡ b) × (k ≡ l)
unfolding pubkey_kind_key
pubkey_kind_key_inj cfg a b k l ha hb hk hl e =
    let parts =
      split_colon a b (itoa (pos k)) (itoa (pos l)) ha hb
        (append_cancel_left "pk:" _ _ (append_cancel_left cfg.key_prefix _ _ e)) in
    (parts.0, cc (itoa_inj (pos k) (pos l) hk hl parts.1))
