-- ===== src/Consensus/ForkChoice/Longest.antt =====
-- crates/consensus/src/fork_choice.rs: `select_longest_chain`.
use ethereum_rust.Base.{
  ℕ, ◌*◌, ◌^◌, ◌≤◌, ◌<◌, ◌≡◌, ◌⊎◌, inl, inr, refl, subst, sym, ap, ◌∙◌, List, [], ◌∷◌, Option, some,
  arith, ltb, ◌==◌, All, if◌then◌else◌,
}
use ethereum_rust.Base.Sorting.{choose}
use ethereum_rust.Consensus.ForkChoice.{
  Header, challenge, longest_from, longest_start, select_longest_chain, get_total_difficulty,
}

-- `block` does not come before `best`: its number is lower, or the same with no lower hash.
abbrev pub Behind : Header → Header → Type 0
Behind best block =
    (block.number < best.number) ⊎ ((block.number ≡ best.number) × (best.hash ≤ block.hash))

Behind-refl : (b : Header) → Behind b b
Behind-refl b = inr (refl, omega arith)

Behind-trans : (a b c : Header) → Behind a b → Behind b c → Behind a c
Behind-trans a b c p q = ground (arith, p, q)

-- The difficulty of a block does not pass 256 bits.
abbrev pub Small : Header → Type 0
Small b = b.number * 1000000 < 2 ^ 256

abbrev Chosen : List Header → Header → Type 0
Chosen blocks best = All (Behind best) blocks

-- A round keeps the better of the two blocks with its difficulty.
abbrev Better : Header → Header → Header × ℕ → Type 0
Better a b next =
    ((next.0 ≡ a) ⊎ (next.0 ≡ b))
    × ((next.1 ≡ next.0.number * 1000000) × (Behind next.0 a × Behind next.0 b))

challenge-Better :
    (a b : Header) → Better a b (challenge a (a.number * 1000000) b (b.number * 1000000))
unfolding challenge
challenge-Better a b =
    let da = a.number * 1000000 in
    let db = b.number * 1000000 in
    choose (Better a b) (ltb da db) (b, db)
      (if db == da then (if ltb b.hash a.hash then (b, da) else (a, da)) else (a, da))
      (λ h. (inr refl, (refl, (inl (ground (arith, h)), Behind-refl b))))
      (λ h.
        choose (Better a b) (db == da) (if ltb b.hash a.hash then (b, da) else (a, da)) (a, da)
          (λ e.
            choose (Better a b) (ltb b.hash a.hash) (b, da) (a, da)
              (λ l. (
                inr refl,
                (ground (arith, e), (inr (ground (arith, e), ground (arith, l)), Behind-refl b)),
              ))
              (λ l.
                (inl refl, (refl, (Behind-refl a, inr (ground (arith, e), ground (arith, l)))))))
          (λ e. (inl refl, (refl, (Behind-refl a, inl (ground (arith, h, e)))))))

get_total_difficulty_lem :
    (b : Header) → Small b → get_total_difficulty b ≡ some (b.number * 1000000)
unfolding get_total_difficulty
get_total_difficulty_lem b l = ground (arith, l)

All-Behind : (a b : Header) (bs : List Header) → Behind a b → Chosen bs b → Chosen bs a
All-Behind a b [] p h = tt
All-Behind a b (c ∷ bs) p h = (Behind-trans a b c p h.0, All-Behind a b bs p h.1)

-- What `select_longest_chain` returns: a block of the list behind which all the others are.
abbrev pub Selected : List Header → Option Header → Type 1
Selected blocks o =
    (best : Header) × ((o ≡ some best)
      × (Chosen blocks best × ((P : Header → Type 0) → All P blocks → P best)))

either : (P : Header → Type 0) (a b c : Header) → (c ≡ a) ⊎ (c ≡ b) → P a → P b → P c
either P a b c (inl e) p q = subst P (sym e) p
either P a b c (inr e) p q = subst P (sym e) q

longest_from-Selected :
    (a : Header) (bs : List Header)
    → All Small bs
    → Selected (a ∷ bs) (longest_from a (a.number * 1000000) bs)
unfolding longest_from
longest_from-Selected a [] h = (a, (refl, ((Behind-refl a, tt), λ P k. k.0)))
longest_from-Selected a (b ∷ bs) h =
    let next = challenge a (a.number * 1000000) b (b.number * 1000000) in
    let (one, (priced, (first, second))) = challenge-Better a b in
    let (best, (e, (behind, has))) = longest_from-Selected next.0 bs h.1 in
    rw (longest_from, get_total_difficulty_lem b h.0, priced)
      (
        best,
        (
          e,
          (
            (
              Behind-trans best next.0 a behind.0 first,
              (Behind-trans best next.0 b behind.0 second, behind.1),
            ),
            λ P q. has P (either P a b next.0 one q.0 q.1.0, q.1.1),
          ),
        ),
      )

-- On a list with a block, where no difficulty passes 256 bits, the choice of the longest chain returns a
-- block of the list, and every block of the list has a lower number, or the same number and no lower hash.
pub select_longest_chain-Selected :
    (block : Header) (blocks : List Header)
    → All Small (block ∷ blocks)
    → Selected (block ∷ blocks) (select_longest_chain (block ∷ blocks))
unfolding select_longest_chain longest_start
select_longest_chain-Selected block blocks h =
    rw (get_total_difficulty_lem block h.0) (longest_from-Selected block blocks h.1)

Behind-antisym :
    (a b : Header) → Behind a b → Behind b a → (a.number ≡ b.number) × (a.hash ≡ b.hash)
Behind-antisym a b p q = (ground (arith, p, q), ground (arith, p, q))

-- Lists with the same blocks, in any order and with any repetition, where no difficulty passes 256 bits,
-- lead to blocks of the same number and hash.
pub select_longest_chain_unordered :
    (a b : Header) (left right : List Header)
    → All Small (a ∷ left)
    → All Small (b ∷ right)
    → ((P : Header → Type 0) → All P (a ∷ left) → All P (b ∷ right))
    → ((P : Header → Type 0) → All P (b ∷ right) → All P (a ∷ left))
    → (x y : Header) → select_longest_chain (a ∷ left) ≡ some x
    → select_longest_chain (b ∷ right) ≡ some y
    → (x.number ≡ y.number) × (x.hash ≡ y.hash)
select_longest_chain_unordered a b left right h k f g x y p q =
    let (x', (p', (behind_x, has_x))) = select_longest_chain-Selected a left h in
    let (y', (q', (behind_y, has_y))) = select_longest_chain-Selected b right k in
    let same =
      Behind-antisym x' y' (has_y (Behind x') (f (Behind x') behind_x))
        (has_x (Behind y') (g (Behind y') behind_y)) in
    let x≡ : x' ≡ x = cc (p, p') in
    let y≡ : y' ≡ y = cc (q, q') in
    (
      sym (ap (λ (c : Header). c.number) x≡) ∙ same.0 ∙ ap (λ (c : Header). c.number) y≡,
      sym (ap (λ (c : Header). c.hash) x≡) ∙ same.1 ∙ ap (λ (c : Header). c.hash) y≡,
    )
