-- ===== src/EthChain/Headers.antt =====
-- Blocks that are joined up by their hashes, whatever moves are added to them.
use xayax.Prelude.{ℕ, ◌≡◌, refl, List, [], ◌∷◌, ◌++◌, Option, none, some, last?, sym, ◌∙◌}
use xayax.BlockData.{BlockData, Linked, IsRange}

-- Blocks that differ in nothing that joins them up.
abbrev pub SameHeader : {Json : Type 0} → BlockData Json → BlockData Json → Type 0
SameHeader a b = (a.hash ≡ b.hash) × (a.parent ≡ b.parent) × (a.height ≡ b.height)

abbrev pub SameHeaders : {Json : Type 0} → List (BlockData Json) → List (BlockData Json) → Type 0
SameHeaders [] [] = Unit {0}
SameHeaders [] (b ∷ bs) = ⊥
SameHeaders (a ∷ ps) [] = ⊥
SameHeaders (a ∷ ps) (b ∷ bs) = SameHeader a b × SameHeaders ps bs

pub SameHeaders-refl : {Json : Type 0} (bs : List (BlockData Json)) → SameHeaders bs bs
SameHeaders-refl [] = tt
SameHeaders-refl (b ∷ bs) = ((refl, refl, refl), SameHeaders-refl bs)

pub SameHeaders-trans :
    {Json : Type 0} (ps bs cs : List (BlockData Json))
    → SameHeaders ps bs
    → SameHeaders bs cs
    → SameHeaders ps cs
SameHeaders-trans [] [] [] h k = tt
SameHeaders-trans [] [] (c ∷ cs) h k = absurd k
SameHeaders-trans [] (b ∷ bs) cs h k = absurd h
SameHeaders-trans (a ∷ ps) [] cs h k = absurd h
SameHeaders-trans (a ∷ ps) (b ∷ bs) [] h k = absurd k
SameHeaders-trans (a ∷ ps) (b ∷ bs) (c ∷ cs) (h, hs) (k, ks) =
    ((h.0 ∙ k.0, h.1 ∙ k.1, h.2 ∙ k.2), SameHeaders-trans ps bs cs hs ks)

pub Linked-SameHeaders :
    {Json : Type 0} (ps bs : List (BlockData Json)) → SameHeaders ps bs → Linked ps → Linked bs
Linked-SameHeaders [] [] h l = tt
Linked-SameHeaders [] (b ∷ bs) h l = absurd h
Linked-SameHeaders (a ∷ ps) [] h l = absurd h
Linked-SameHeaders (a ∷ []) (b ∷ []) h l = tt
Linked-SameHeaders (a ∷ []) (b ∷ b' ∷ bs) h l = absurd h.1
Linked-SameHeaders (a ∷ a' ∷ ps) (b ∷ []) h l = absurd h.1
Linked-SameHeaders (a ∷ a' ∷ ps) (b ∷ b' ∷ bs) h (l, ls) =
    (sym h.1.0.1 ∙ l ∙ h.0.0, Linked-SameHeaders (a' ∷ ps) (b' ∷ bs) h.1 ls)

pub IsRange-SameHeaders :
    {Json : Type 0} (start : ℕ) (ps bs : List (BlockData Json))
    → SameHeaders ps bs
    → IsRange start (some ps)
    → IsRange start (some bs)
IsRange-SameHeaders start [] [] h r = r
IsRange-SameHeaders start [] (b ∷ bs) h r = absurd h
IsRange-SameHeaders start (a ∷ ps) [] h r = absurd h
IsRange-SameHeaders start (a ∷ ps) (b ∷ bs) h r =
    (sym h.0.2 ∙ r.0, Linked-SameHeaders (a ∷ ps) (b ∷ bs) h r.1)

-- A block joins up with those before it.
abbrev pub JoinsUp : {Json : Type 0} → ℕ → BlockData Json → Option (BlockData Json) → Type 0
JoinsUp start blk none = blk.height ≡ start
JoinsUp start blk (some back) = blk.parent ≡ back.hash

pub Linked-snoc :
    {Json : Type 0} (start : ℕ) (res : List (BlockData Json)) (blk : BlockData Json)
    → Linked res
    → JoinsUp start blk (last? res)
    → Linked (res ++ blk ∷ [])
Linked-snoc start [] blk l j = tt
Linked-snoc start (a ∷ []) blk l j = (j, tt)
Linked-snoc start (a ∷ b ∷ bs) blk (l, ls) j = (l, Linked-snoc start (b ∷ bs) blk ls j)

pub IsRange-snoc :
    {Json : Type 0} (start : ℕ) (res : List (BlockData Json)) (blk : BlockData Json)
    → IsRange start (some res)
    → JoinsUp start blk (last? res)
    → IsRange start (some (res ++ blk ∷ []))
IsRange-snoc start [] blk r j = (j, tt)
IsRange-snoc start (a ∷ ps) blk (s, l) j = (s, Linked-snoc start (a ∷ ps) blk l j)
