-- ===== src/Server/Adverts/Read.antt =====
-- What a client reads from the lines that list refs.
use mizzle.Base.{
  ℕ, ◌≤◌, Bytes, Bool, true, false, List, [], ◌∷◌, ◌++◌, Option, none, some, codes, OidHex,
  ObjectId, All, IsHexDigit, inl, inr, arith, ◌≡◌, ◌≢◌, refl, ◌==◌, map, append-nil, append_assoc,
  ◌⊎◌, Bool-cases,
}
use mizzle.Proto.Lines.{Line, data_line, flush, space, chomp, chomp-newline, cut}
use mizzle.Proto.LsRefs.{ListRefsArgs}
use mizzle.Server.Snapshot.{RefInfo}
use mizzle.Server.Push.{text}
use mizzle.Server.Adverts.{advert_refs, advert, attributes, ref_line, ref_lines}
use mizzle.Server.Adverts.Asked.{Chosen, nothing, take_ref, skip_ref, wanted-Asked}

-- None of the bytes is `sep`.
abbrev pub Free : ℕ → Bytes → Type 0
Free sep = All (λ b. b ≢ sep)

==_false : (a b : ℕ) → a ≢ b → (a == b) ≡ false
==_false a b h = ground arith

pub cut-hit : (sep : ℕ) (xs ys : Bytes) → Free sep xs → cut sep (xs ++ sep ∷ ys) ≡ (xs, some ys)
cut-hit sep [] ys h = ground arith
cut-hit sep (x ∷ xs) ys h = rw (==_false x sep h.0, cut-hit sep xs ys h.1) refl

pub cut-miss : (sep : ℕ) (xs : Bytes) → Free sep xs → cut sep xs ≡ (xs, none)
cut-miss sep [] h = refl
cut-miss sep (x ∷ xs) h = rw (==_false x sep h.0, cut-miss sep xs h.1) refl

Free-digits : (sep : ℕ) (xs : Bytes) → sep ≤ 47 → All IsHexDigit xs → Free sep xs
Free-digits sep [] k h = tt
Free-digits sep (x ∷ xs) k h =
    (λ e. elim h.0 [ inl a ↦ omega arith | inr a ↦ omega arith ], Free-digits sep xs k h.1)

Free-append : (sep : ℕ) (xs ys : Bytes) → Free sep xs → Free sep ys → Free sep (xs ++ ys)
Free-append sep [] ys h k = k
Free-append sep (x ∷ xs) ys h k = (h.0, Free-append sep xs ys h.1 k)

abbrev pub id_and_name : Bytes × Option Bytes → Option (Bytes × Bytes)
id_and_name (hex, none) = none
id_and_name (hex, some name) = some (hex, (cut space name).0)

-- The id and the name on a line: what stands before the first space, and between it and the next
-- one, leaving out what follows a NUL.
unfoldable pub listed : Line → Option (Bytes × Bytes)
listed (data_line d) = id_and_name (cut space (cut 0 (chomp d)).0)
listed l = none

abbrev pub NameFits : Bytes → Type 0
NameFits name = Free 0 name × Free space name

module _ (H : OidHex) where
  open H use {to_hex}

  abbrev pub shown : ObjectId × Bytes → Option (Bytes × Bytes)
  shown (oid, name) = some (to_hex oid, name)

  listed-named :
      (oid : ObjectId) (name : Bytes)
      → NameFits name
      → id_and_name (cut space (to_hex oid ++ space ∷ name)) ≡ some (to_hex oid, name)
  listed-named oid name h =
      rw
        (
          cut-hit space (to_hex oid) name
              (Free-digits space (to_hex oid) (omega arith) (H.AreDigits-to_hex oid)),
          cut-miss space name h.1,
        )
        refl

  Free-line : (oid : ObjectId) (name : Bytes) → NameFits name → Free 0 (to_hex oid ++ space ∷ name)
  Free-line oid name h =
      Free-append 0 (to_hex oid) (space ∷ name)
        (Free-digits 0 (to_hex oid) (omega arith) (H.AreDigits-to_hex oid)) (λ e. omega arith, h.0)

  listed-first :
      (oid : ObjectId) (name caps : Bytes)
      → NameFits name
      → listed (text (to_hex oid ++ space ∷ (name ++ 0 ∷ caps))) ≡ some (to_hex oid, name)
  unfolding listed
  listed-first oid name caps h =
      rw
        (
          chomp-newline (to_hex oid ++ space ∷ (name ++ 0 ∷ caps)),
          ← append_assoc (to_hex oid) (space ∷ name) (0 ∷ caps),
          cut-hit 0 (to_hex oid ++ space ∷ name) caps (Free-line oid name h),
        )
        (listed-named oid name h)

  listed-later :
      (oid : ObjectId) (name : Bytes)
      → NameFits name
      → listed (text (to_hex oid ++ space ∷ name)) ≡ some (to_hex oid, name)
  unfolding listed
  listed-later oid name h =
      rw
        (
          chomp-newline (to_hex oid ++ space ∷ name),
          cut-miss 0 (to_hex oid ++ space ∷ name) (Free-line oid name h),
        )
        (listed-named oid name h)

  listed-advert_refs :
      (caps : Bytes) (first : Bool) (refs : List (ObjectId × Bytes))
      → All (λ r. NameFits r.1) refs
      → map listed (advert_refs H caps first refs ++ flush ∷ []) ≡ map shown refs ++ none ∷ []
  unfolding advert_refs listed
  listed-advert_refs caps first [] h = refl
  listed-advert_refs caps true ((oid, name) ∷ refs) h =
      rw (listed-first oid name caps h.0, listed-advert_refs caps false refs h.1) refl
  listed-advert_refs caps false ((oid, name) ∷ refs) h =
      rw (listed-later oid name h.0, listed-advert_refs caps false refs h.1) refl

  -- For any capabilities and a list of at least one ref, where no name has a NUL or a space, a
  -- client reads from the advertisement the ids and the names of the refs, in their order, and then
  -- the flush.
  pub listed-advert :
      (caps : Bytes) (r : ObjectId × Bytes) (refs : List (ObjectId × Bytes))
      → All (λ r. NameFits r.1) (r ∷ refs)
      → map listed (advert H caps (r ∷ refs)) ≡ map shown (r ∷ refs) ++ none ∷ []
  unfolding advert
  listed-advert caps r refs h = listed-advert_refs caps true (r ∷ refs) h

  -- The same for a line of `ls-refs`, which has no NUL.
  unfoldable pub ls_listed : Line → Option (Bytes × Bytes)
  ls_listed (data_line d) = id_and_name (cut space (chomp d))
  ls_listed l = none

  attributes-cases :
      (args : ListRefsArgs) (target : Option Bytes) (peeled : Option ObjectId)
      → (attributes H args target peeled ≡ [])
        ⊎ ((rest : Bytes) × (attributes H args target peeled ≡ space ∷ rest))
  attributes-cases args (some target) peeled = elim (Bool-cases args.symrefs) [
    | inl e ↦ inr (codes "symref-target:" ++ target, rw e refl)
    | inr e ↦ inl (rw e refl)
  ]
  attributes-cases args none (some peeled) = elim (Bool-cases args.peel) [
    | inl e ↦ inr (codes "peeled:" ++ to_hex peeled, rw e refl)
    | inr e ↦ inl (rw e refl)
  ]
  attributes-cases args none none = inl refl

  cut-attributes :
      (args : ListRefsArgs) (name : Bytes) (target : Option Bytes) (peeled : Option ObjectId)
      → Free space name
      → (cut space (name ++ attributes H args target peeled)).0 ≡ name
  cut-attributes args name target peeled h = elim (attributes-cases args target peeled) [
    | inl e ↦ rw (e, append-nil name, cut-miss space name h) refl
    | inr (rest, e) ↦ rw (e, cut-hit space name rest h) refl
  ]

  ls_listed-ref_line :
      (args : ListRefsArgs) (r : RefInfo)
      → Free space r.name
      → ls_listed (ref_line H args r) ≡ some (to_hex r.oid, r.name)
  unfolding ls_listed
  ls_listed-ref_line args r h =
      rw
        (
          chomp-newline
              (to_hex r.oid ++ space ∷ (r.name ++ attributes H args r.symref_target r.peeled)),
          cut-hit space (to_hex r.oid) (r.name ++ attributes H args r.symref_target r.peeled)
              (Free-digits space (to_hex r.oid) (omega arith) (H.AreDigits-to_hex r.oid)),
          cut-attributes args r.name r.symref_target r.peeled h,
        )
        refl

  -- For any arguments and refs whose names have no space, a client reads from the lines of
  -- `ls-refs` the ids and the names of exactly those refs, in order, of which the request asks for: of
  -- all where it has no prefix, and else of those whose name is one of the prefixes and some rest;
  -- whatever is said of symbolic targets and peeled ids.
  pub ls_listed-ref_lines :
      (args : ListRefsArgs) (refs : List RefInfo)
      → All (λ r. Free space r.name) refs
      → (chosen : List (ObjectId × Bytes)) × Chosen args.prefixes refs chosen
        × (map ls_listed (ref_lines H args refs) ≡ map shown chosen)
  unfolding ref_lines
  ls_listed-ref_lines args [] h = ([], nothing, refl)
  ls_listed-ref_lines args (r ∷ refs) h =
      let (chosen, same, read) = ls_listed-ref_lines args refs h.1 in
      elim (wanted-Asked args.prefixes r.name) [
        | inl (e, a) ↦ (
          (r.oid, r.name) ∷ chosen,
          take_ref a same,
          rw (e, ls_listed-ref_line args r h.0, read) refl,
        )
        | inr (e, n) ↦ (chosen, skip_ref n same, rw e read)
      ]
