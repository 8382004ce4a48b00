-- ===== src/Datagen/Index/Inverse.antt =====
-- The reverse index has, for each audience, the campaigns that target it.
use guidance_for_building_a.Common.{
  ℕ, ◌/◌, ◌%◌, ◌≡◌, refl, ap, sym, ◌∙◌, List, [], ◌∷◌, ◌++◌, Option, none, some, Bool-cases,
  Option-cases, inl, inr, if◌then◌else◌, append_assoc, append-nil, arith,
}
use guidance_for_building_a.Id.{ItemId, same, same_iff, lookup, lookup-insert}
use guidance_for_building_a.Id.Hex.{hex_digit, encode_to_string}
use guidance_for_building_a.Api.{Audience}
use guidance_for_building_a.Datagen.Records.{ReversedAudience}
use guidance_for_building_a.Datagen.Index.{ReverseIndex, add, add_all, collect}

-- The campaigns in which `a` is an audience, in order, as often as it is one.
pub targeting_one : ItemId → ItemId → List ItemId → List ItemId
targeting_one a cid [] = []
targeting_one a cid (b ∷ bs) =
    let rest = targeting_one a cid bs in if same b a then cid ∷ rest else rest

pub targeting : ItemId → List ReversedAudience → List ItemId
targeting a [] = []
targeting a (r ∷ rs) = targeting_one a r.campaign_id r.audience_ids ++ targeting a rs

-- The record of an audience with these campaigns; there is none without a campaign.
pub record_of : ItemId → List ItemId → Option Audience
record_of a [] = none
record_of a (c ∷ cs) = some (record { audience_id = a; campaign_ids = c ∷ cs })

hex_digit_inj : (m n : ℕ) → hex_digit m ≡ hex_digit n → m ≡ n
unfolding hex_digit
hex_digit_inj m n e = ground arith

encode_to_string_inj : (xs ys : List ℕ) → encode_to_string xs ≡ encode_to_string ys → xs ≡ ys
unfolding encode_to_string
encode_to_string_inj [] [] e = refl
encode_to_string_inj [] (y ∷ ys) e = cc e
encode_to_string_inj (x ∷ xs) [] e = cc e
encode_to_string_inj (x ∷ xs) (y ∷ ys) e =
    let high : hex_digit (x / 16) ≡ hex_digit (y / 16) = cc e in
    let low : hex_digit (x % 16) ≡ hex_digit (y % 16) = cc e in
    let rest : encode_to_string xs ≡ encode_to_string ys = cc e in
    let head : x ≡ y =
      omega (arith, hex_digit_inj (x / 16) (y / 16) high, hex_digit_inj (x % 16) (y % 16) low) in
    cc (head, encode_to_string_inj xs ys rest)

-- Keys agree exactly when the identifiers do.
same-encode : (a b : ItemId) → same (encode_to_string a) (encode_to_string b) ≡ same a b
same-encode a b = ground (
  arith,
  same_iff a b,
  same_iff (encode_to_string a) (encode_to_string b),
  encode_to_string_inj a b,
)

-- What `add` makes of an audience's entry.
push : ItemId → ItemId → Option Audience → Option Audience
push a cid none = some (record { audience_id = a; campaign_ids = cid ∷ [] })
push a cid (some rc) = some (record rc { campaign_ids = rc.campaign_ids ++ cid ∷ [] })

lookup-add :
    (ri : ReverseIndex) (cid a b : ItemId)
    → lookup (encode_to_string a) (add ri cid b) ≡ (
        if same b a
        then push b cid (lookup (encode_to_string b) ri)
        else lookup (encode_to_string a) ri)
unfolding add push
lookup-add ri cid a b = elim (Option-cases (lookup (encode_to_string b) ri)) [
  | inl e ↦
      rw
        (
          add,
          e,
          lookup-insert (encode_to_string b) (encode_to_string a)
              (record { audience_id = b; campaign_ids = cid ∷ [] }) ri,
          same-encode b a,
        )
        refl
  | inr (rc, e) ↦
      rw
        (
          add,
          e,
          lookup-insert (encode_to_string b) (encode_to_string a)
              (record rc { campaign_ids = rc.campaign_ids ++ cid ∷ [] }) ri,
          same-encode b a,
        )
        refl
]

push_all : ItemId → List ItemId → Option Audience → Option Audience
push_all a [] o = o
push_all a (c ∷ cs) o = push_all a cs (push a c o)

push_all-append :
    (a : ItemId) (xs ys : List ItemId) (o : Option Audience)
    → push_all a (xs ++ ys) o ≡ push_all a ys (push_all a xs o)
unfolding push_all
push_all-append a [] ys o = refl
push_all-append a (x ∷ xs) ys o = push_all-append a xs ys (push a x o)

push_all-some :
    (a i : ItemId) (cs before : List ItemId)
    → push_all a cs (some (record { audience_id = i; campaign_ids = before }))
      ≡ some (record { audience_id = i; campaign_ids = before ++ cs })
unfolding push_all push
push_all-some a i [] before = rw (append-nil before) refl
push_all-some a i (c ∷ cs) before =
    rw (push_all-some a i cs (before ++ c ∷ []), append_assoc before (c ∷ []) cs) refl

push_all-none : (a : ItemId) (cs : List ItemId) → push_all a cs none ≡ record_of a cs
unfolding push_all push record_of
push_all-none a [] = refl
push_all-none a (c ∷ cs) = push_all-some a a cs (c ∷ [])

lookup-add_all :
    (ri : ReverseIndex) (cid a : ItemId) (bs : List ItemId)
    → lookup (encode_to_string a) (add_all ri cid bs)
      ≡ push_all a (targeting_one a cid bs) (lookup (encode_to_string a) ri)
unfolding add_all targeting_one push_all
lookup-add_all ri cid a [] = refl
lookup-add_all ri cid a (b ∷ bs) =
    lookup-add_all (add ri cid b) cid a bs
    ∙ ap (push_all a (targeting_one a cid bs)) (lookup-add ri cid a b)
    ∙ (elim (Bool-cases (same b a)) [
      | inl e ↦
          let eq : b ≡ a = (same_iff b a).0 e in
          rw e (
            ap
              (λ k.
                push_all a (targeting_one a cid bs) (push k cid (lookup (encode_to_string k) ri)))
              eq)
      | inr e ↦ rw e refl
    ])

lookup-collect :
    (ri : ReverseIndex) (a : ItemId) (rs : List ReversedAudience)
    → lookup (encode_to_string a) (collect ri rs)
      ≡ push_all a (targeting a rs) (lookup (encode_to_string a) ri)
unfolding collect targeting
lookup-collect ri a [] = unfold push_all in refl
lookup-collect ri a (r ∷ rs) =
    lookup-collect (add_all ri r.campaign_id r.audience_ids) a rs
    ∙ ap (push_all a (targeting a rs)) (lookup-add_all ri r.campaign_id a r.audience_ids)
    ∙ sym (
        push_all-append a (targeting_one a r.campaign_id r.audience_ids) (targeting a rs)
          (lookup (encode_to_string a) ri))

-- Whatever campaigns come in, the index has under an audience's key exactly the campaigns that list
-- the audience, in the order in which they came and once for each time they list it, and it has no
-- record of an audience that none lists.
pub lookup-collect-targeting :
    (a : ItemId) (rs : List ReversedAudience)
    → lookup (encode_to_string a) (collect [] rs) ≡ record_of a (targeting a rs)
lookup-collect-targeting a rs =
    lookup-collect [] a rs ∙ (unfold lookup in push_all-none a (targeting a rs))
