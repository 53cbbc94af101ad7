-- ===== src/Strings/Split.antt =====
-- Join undoes Split.
use lightspeed_chat.Base.{◌≡◌, ◌≢◌, refl, ℕ, Text, List, [], ◌∷◌, arith}
use lightspeed_chat.Strings.{cons_head, split, join}

join-cons_head :
    (sep c : ℕ) (parts : List Text) → parts ≢ [] → join sep (cons_head c parts) ≡ c ∷ join sep parts
unfolding join
join-cons_head sep c [] h = absurd (h refl)
join-cons_head sep c (part ∷ []) h = refl
join-cons_head sep c (part ∷ next ∷ parts) h = refl

join-nil_cons :
    (sep : ℕ) (parts : List Text) → parts ≢ [] → join sep ([] ∷ parts) ≡ sep ∷ join sep parts
unfolding join
join-nil_cons sep [] h = absurd (h refl)
join-nil_cons sep (part ∷ parts) h = refl

pub split-ne-nil : (sep : ℕ) (s : Text) → split sep s ≢ []
unfolding split
split-ne-nil sep [] = λ h. cc
split-ne-nil sep (c ∷ s) = ground (arith, split-ne-nil sep s)

-- Joining the parts of a split gives the text back.
pub join-split : (sep : ℕ) (s : Text) → join sep (split sep s) ≡ s
unfolding split
join-split sep [] = unfold join in refl
join-split sep (c ∷ s) = ground (
  arith,
  join-split sep s,
  split-ne-nil sep s,
  join-nil_cons sep (split sep s),
  join-cons_head sep c (split sep s),
)
