-- ===== src/Server/Snapshot/Tips.antt =====
-- Which tips the walk for new commits leaves out.
use mizzle.Base.{
  false, List, [], ◌∷◌, ◌≡◌, ◌⊎◌, ◌↔◌, Option, none, some, ObjectId, Memᴰ, Bool-cases, inl, inr,
  refl, ap, sym,
}
use mathlib.Core.List.Memᴰ
use mizzle.Server.Snapshot.{PushRef, RefInfo, is_pushed, peeled_tip, tips}

-- An id that a ref shows: its own, or the peeled one.
abbrev pub TipOf : RefInfo → ObjectId → Type 0
TipOf r oid = (oid ≡ r.oid) ⊎ (r.peeled ≡ some oid)

peeled_sound : (o : Option ObjectId) (oid : ObjectId) → Memᴰ oid (peeled_tip o) → o ≡ some oid
peeled_sound none oid m = absurd (Memᴰ.not-nil m)
peeled_sound (some p) oid m = ap (λ x. some x) (sym (Memᴰ.eq_of_singleton m))

peeled_complete : (o : Option ObjectId) (oid : ObjectId) → o ≡ some oid → Memᴰ oid (peeled_tip o)
peeled_complete o oid e = rw e (Memᴰ.head refl)

-- A ref that the push leaves alone and that shows the id.
abbrev pub KeptTip : List PushRef → List RefInfo → ObjectId → Type 0
KeptTip pushed refs oid =
    (r : RefInfo) × Memᴰ r refs × (is_pushed pushed r.name ≡ false) × TipOf r oid

later_tip :
    (pushed : List PushRef) (r : RefInfo) (refs : List RefInfo) (oid : ObjectId)
    → KeptTip pushed refs oid
    → KeptTip pushed (r ∷ refs) oid
later_tip pushed r refs oid (r', m, e, t) = (r', Memᴰ.tail m, e, t)

tips_sound :
    (pushed : List PushRef) (refs : List RefInfo) (oid : ObjectId)
    → Memᴰ oid (tips pushed refs)
    → KeptTip pushed refs oid
unfolding tips
tips_sound pushed [] oid m = absurd (Memᴰ.not-nil m)
tips_sound pushed (r ∷ refs) oid m = elim (Bool-cases (is_pushed pushed r.name)) [
  | inl e ↦ later_tip pushed r refs oid (tips_sound pushed refs oid (rw e at m))
  | inr e ↦ elim (Memᴰ.append_cases (r.oid ∷ peeled_tip r.peeled) (rw e at m)) [
    | inr later ↦ later_tip pushed r refs oid (tips_sound pushed refs oid later)
    | inl (Memᴰ.head h) ↦ (r, Memᴰ.head refl, e, inl h)
    | inl (Memᴰ.tail h) ↦ (r, Memᴰ.head refl, e, inr (peeled_sound r.peeled oid h))
  ]
]

tip_here :
    (pushed : List PushRef) (refs : List RefInfo) (oid : ObjectId) (r : RefInfo)
    → is_pushed pushed r.name ≡ false
    → TipOf r oid
    → Memᴰ oid (tips pushed (r ∷ refs))
unfolding tips
tip_here pushed refs oid r e (inl h) = rw e (Memᴰ.head h)
tip_here pushed refs oid r e (inr h) =
    rw e (Memᴰ.tail (Memᴰ.append_left (tips pushed refs) (peeled_complete r.peeled oid h)))

tip_later :
    (pushed : List PushRef) (refs : List RefInfo) (oid : ObjectId) (r : RefInfo)
    → Memᴰ oid (tips pushed refs)
    → Memᴰ oid (tips pushed (r ∷ refs))
unfolding tips
tip_later pushed refs oid r m = elim (Bool-cases (is_pushed pushed r.name)) [
  | inl e ↦ rw e m
  | inr e ↦ rw e (Memᴰ.append_right (r.oid ∷ peeled_tip r.peeled) m)
]

tips_complete :
    (pushed : List PushRef) (refs : List RefInfo) (oid : ObjectId) (r : RefInfo)
    → Memᴰ r refs
    → is_pushed pushed r.name ≡ false
    → TipOf r oid
    → Memᴰ oid (tips pushed refs)
tips_complete pushed [] oid r m e t = absurd (Memᴰ.not-nil m)
tips_complete pushed (r' ∷ refs) oid r (Memᴰ.head h) e t =
    tip_here pushed refs oid r' (rw (← h) e) (rw (← h) t)
tips_complete pushed (r' ∷ refs) oid r (Memᴰ.tail m) e t =
    tip_later pushed refs oid r' (tips_complete pushed refs oid r m e t)

-- For any pushed refs and refs of a snapshot, an id is among the tips exactly when some ref whose
-- name is not pushed has it as its id or as its peeled id.
pub tips_exact :
    (pushed : List PushRef) (refs : List RefInfo) (oid : ObjectId)
    → Memᴰ oid (tips pushed refs) ↔ KeptTip pushed refs oid
tips_exact pushed refs oid =
    (tips_sound pushed refs oid, λ (r, m, e, t). tips_complete pushed refs oid r m e t)
