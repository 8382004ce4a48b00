-- ===== src/Auction/Choose/Reserve.antt =====
-- What the two loops of `chooseCampaign` do to the budgets.
use guidance_for_building_a.Common.{
  ℕ, ◌<◌, ◌≡◌, refl, List, [], ◌∷◌, Bool, false, true, ◌&&◌, not, Option, none, some, length,
  get_elem?, Option-cases, All-get_elem?, get_elem?-some, All, if◌then◌else◌, ◌==◌, ==_iff,
  Bool-cases, inl, inr, arith,
}
use guidance_for_building_a.Common.Int64.{
  IsInt64, add64-sub64, add64, sub64, is_nonneg, add64-IsInt64, sub64-IsInt64,
}
use guidance_for_building_a.Api.{Campaign}
use guidance_for_building_a.Cache.Campaigns
use guidance_for_building_a.Cache.Campaigns.{CampaignCache, size}
use guidance_for_building_a.Cache.Budgets.{BudgetState}
use guidance_for_building_a.Cache.Budgets.State.{
  funds, IsState, update, funds-update, update-IsState, reserve_lem, free_lem,
}
use guidance_for_building_a.Auction.Indices.{contains, Distinct, contains-apart}
use guidance_for_building_a.Auction.Choose.{Winning, contend, reserve_all, is_winner, free_all}

abbrev pub max_cpm_of : Option Campaign → ℕ
max_cpm_of none = 0
max_cpm_of (some c) = c.max_cpm

-- The MaxCPM of a campaign.
unfoldable pub price : CampaignCache → ℕ → ℕ
price campaigns i = max_cpm_of (Campaigns.get campaigns i)

-- Whether `Reserve` finds the budget of the campaign left.
unfoldable pub affords : CampaignCache → BudgetState → ℕ → Bool
affords campaigns b i = is_nonneg (sub64 (funds b i) (price campaigns i))

-- The ranking alone, with the budgets from before the auction.
unfoldable pub rank_one : CampaignCache → BudgetState → Winning → ℕ → Winning
rank_one campaigns b w i = if affords campaigns b i then contend w i (price campaigns i) else w

unfoldable pub rank : CampaignCache → BudgetState → Winning → List ℕ → Winning
rank campaigns b w [] = w
rank campaigns b w (i ∷ is) = rank campaigns b (rank_one campaigns b w i) is

pub get_price :
    (campaigns : CampaignCache) (i : ℕ)
    → i < size campaigns
    → (c : Campaign) × (Campaigns.get campaigns i ≡ some c) × (price campaigns i ≡ c.max_cpm)
unfolding size Campaigns.get price
get_price campaigns i h = let (c, e) = get_elem?-some campaigns.campaigns i h in (c, e, rw e refl)

pub price-IsInt64 :
    (campaigns : CampaignCache) (i : ℕ)
    → All (λ c. IsInt64 c.max_cpm) campaigns.campaigns
    → IsInt64 (price campaigns i)
unfolding price Campaigns.get
price-IsInt64 campaigns i words = elim (Option-cases (get_elem? campaigns.campaigns i)) [
  | inl e ↦ rw e (omega arith)
  | inr (c, e) ↦ rw e (All-get_elem? (λ c'. IsInt64 c'.max_cpm) campaigns.campaigns i words e)
]

-- The ranking reads the budgets of the listed campaigns only.
rank_agrees :
    (campaigns : CampaignCache) (b b' : BudgetState) (is : List ℕ) (w : Winning)
    → ((i : ℕ) → contains i is ≡ true → funds b' i ≡ funds b i)
    → rank campaigns b' w is ≡ rank campaigns b w is
unfolding rank rank_one contains affords
rank_agrees campaigns b b' [] w h = refl
rank_agrees campaigns b b' (i ∷ is) w h =
    rw (h i (ground arith))
      (rank_agrees campaigns b b' is (rank_one campaigns b w i) (λ j e. h j (ground arith)))

reserve_all_lem :
    (campaigns : CampaignCache) (is : List ℕ) (b : BudgetState) (w : Winning)
    → IsState (size campaigns) b
    → Distinct is
    → All (λ i. i < size campaigns) is
    → (b' : BudgetState) × (reserve_all campaigns b w is ≡ some (b', rank campaigns b w is))
      × IsState (size campaigns) b'
      × ((j : ℕ)
          → funds b' j
            ≡ (if contains j is then sub64 (funds b j) (price campaigns j) else funds b j))
unfolding reserve_all rank contains
reserve_all_lem campaigns [] b w s d h = (b, refl, s, λ j. refl)
reserve_all_lem campaigns (i ∷ is) b w s d h =
    let (c, at, p) = get_price campaigns i h.0 in
    let left = sub64 (funds b i) c.max_cpm in
    let lt : i < length b.available = omega (arith, s.sized, h.0) in
    let s1 = update-IsState (size campaigns) b i left h.0 (sub64-IsInt64 (funds b i) c.max_cpm) s in
    let w1 = rank_one campaigns b w i in
    let (b', e, s', f) = reserve_all_lem campaigns is (update b i left) w1 s1 d.1 h.1 in
    let same : rank campaigns (update b i left) w1 is ≡ rank campaigns b w1 is =
      rank_agrees campaigns b (update b i left) is w1
        (λ j m. rw (funds-update b i j left lt, contains-apart i j is d.0 m) refl) in
    let one : w1 ≡ (if is_nonneg left then contend w i c.max_cpm else w) =
      unfold rank_one affords in rw p refl in
    (
      b',
      rw (at, reserve_lem b i c.max_cpm lt, ← one, e, same) refl,
      s',
      λ j. elim (Bool-cases (i == j)) [
        | inl here ↦
            let out : contains j is ≡ false = rw ((==_iff i j).0 here) at d.0 in
            rw (f j, funds-update b i j left lt, contains, here, out, ← (==_iff i j).0 here, p) refl
        | inr there ↦ rw (f j, funds-update b i j left lt, contains, there) refl
      ],
    )

free_all_lem :
    (campaigns : CampaignCache) (winner : Option ℕ) (is : List ℕ) (b : BudgetState)
    → IsState (size campaigns) b
    → Distinct is
    → All (λ i. i < size campaigns) is
    → (b' : BudgetState) × (free_all campaigns winner b is ≡ some b')
      × IsState (size campaigns) b'
      × ((j : ℕ)
          → funds b' j ≡ (
              if contains j is && not (is_winner winner j)
              then add64 (funds b j) (price campaigns j)
              else funds b j))
unfolding free_all contains
free_all_lem campaigns winner [] b s d h = (b, refl, s, λ j. refl)
free_all_lem campaigns winner (i ∷ is) b s d h =
    let (c, at, p) = get_price campaigns i h.0 in
    elim (Bool-cases (is_winner winner i)) [
      | inl wins ↦
          let (b', e, s', f) = free_all_lem campaigns winner is b s d.1 h.1 in
          (
            b',
            rw (at, wins) e,
            s',
            λ j. elim (Bool-cases (i == j)) [
              | inl here ↦
                  let w : is_winner winner j ≡ true = rw ((==_iff i j).0 here) at wins in
                  ground (arith, f j, w)
              | inr there ↦ ground (arith, f j)
            ],
          )
      | inr loses ↦
          let back = add64 (funds b i) c.max_cpm in
          let lt : i < length b.available = omega (arith, s.sized, h.0) in
          let s1 =
            update-IsState (size campaigns) b i back h.0 (add64-IsInt64 (funds b i) c.max_cpm) s in
          let (b', e, s', f) = free_all_lem campaigns winner is (update b i back) s1 d.1 h.1 in
          (
            b',
            rw (at, loses, free_lem b i c.max_cpm lt) e,
            s',
            λ j. elim (Bool-cases (i == j)) [
              | inl here ↦
                  let out : contains j is ≡ false = rw ((==_iff i j).0 here) at d.0 in
                  let w : is_winner winner j ≡ false = rw ((==_iff i j).0 here) at loses in
                  rw
                    (
                      f j,
                      funds-update b i j back lt,
                      contains,
                      here,
                      out,
                      w,
                      ← (==_iff i j).0 here,
                      p,
                    )
                    refl
              | inr there ↦ rw (f j, funds-update b i j back lt, contains, there) refl
            ],
          )
    ]

-- Together the loops charge the winner, where there is one, and nobody else.
pub reserve_all-free_all :
    (campaigns : CampaignCache) (is : List ℕ) (b : BudgetState) (w : Winning)
    → IsState (size campaigns) b
    → Distinct is
    → All (λ i. i < size campaigns) is
    → All (λ c. IsInt64 c.max_cpm) campaigns.campaigns
    → (reserved : BudgetState) × (reserve_all campaigns b w is
        ≡ some (reserved, rank campaigns b w is))
      × ((winner : Option ℕ)
          → ((i : ℕ) → is_winner winner i ≡ true → contains i is ≡ true)
          → (freed : BudgetState) × (free_all campaigns winner reserved is ≡ some freed)
            × IsState (size campaigns) freed
            × ((j : ℕ)
                → funds freed j ≡ (
                    if is_winner winner j
                    then sub64 (funds b j) (price campaigns j)
                    else funds b j)))
reserve_all-free_all campaigns is b w s d h words =
    let (b', e, s', f) = reserve_all_lem campaigns is b w s d h in
    (
      b',
      e,
      λ winner among.
          let (b'', e', s'', f') = free_all_lem campaigns winner is b' s' d h in
          (
            b'',
            e',
            s'',
            λ j.
                let kept =
                  add64-sub64 (funds b j) (price campaigns j) (s.words j)
                    (price-IsInt64 campaigns j words) in
                elim (Bool-cases (is_winner winner j)) [
                  | inl wins ↦ rw (f' j, f j, wins, among j wins) refl
                  | inr loses ↦
                      rw (f' j, f j, loses)
                        (elim (Bool-cases (contains j is)) [
                          | inl m ↦ rw m kept
                          | inr n ↦ rw n refl
                        ])
                ],
          ),
    )
