-- ===== src/Engine/Schedule/Reservations.antt =====
-- A slot's grants, seen from outside: resources that are taken from a set of cells one after the
-- other, each while it is free.
use nr5g_basic_scheduler.Base.{
  ℕ, ◌≡◌, refl, sym, Bool, true, false, ◌&&◌, ◌||◌, if◌then◌else◌, List, [], ◌∷◌, ◌++◌, All, arith,
  Bool-cases, inl, inr,
}
use nr5g_basic_scheduler.Resources.{TimeFrequencyResource, holds_rb, holds_symbol}
use nr5g_basic_scheduler.Grid.{IsInside}

-- Which cells are taken, by symbol and block.
abbrev pub Cells : Type 0
Cells = ℕ → ℕ → Bool

abbrev pub holds : TimeFrequencyResource → Cells
holds res sym rb = holds_symbol res.symbol_range sym && holds_rb res.rb_range rb

abbrev pub taking : TimeFrequencyResource → Cells → Cells
taking res cells sym rb = if holds res sym rb then true else cells sym rb

abbrev pub IsFreeIn : Cells → TimeFrequencyResource → Type 0
IsFreeIn cells res = (sym rb : ℕ) → holds res sym rb ≡ true → cells sym rb ≡ false

-- The resources of the list were taken in their order.
pub data Reserved (start : Cells) : List TimeFrequencyResource → Cells → Type 0 where
  nothing : Reserved start [] start
  more :
      {taken : List TimeFrequencyResource} {cells : Cells} (res : TimeFrequencyResource)
      → Reserved start taken cells
      → IsInside res
      → IsFreeIn cells res
      → Reserved start (taken ++ res ∷ []) (taking res cells)

-- Some resource of the list has the cell.
abbrev pub held_by : List TimeFrequencyResource → Cells
held_by [] sym rb = false
held_by (res ∷ rs) sym rb = holds res sym rb || held_by rs sym rb

-- The two resources have no cell in common.
abbrev pub IsApart : (first second : TimeFrequencyResource) → Type 0
IsApart first second = (sym rb : ℕ) → holds first sym rb ≡ true → holds second sym rb ≡ false

abbrev pub AreApart : List TimeFrequencyResource → Type 0
AreApart [] = Unit
AreApart (res ∷ rs) = All (IsApart res) rs × AreApart rs

held_by-append :
    (rs : List TimeFrequencyResource) (res : TimeFrequencyResource) (s b : ℕ)
    → held_by (rs ++ res ∷ []) s b ≡ (holds res s b || held_by rs s b)
held_by-append [] res s b = refl
held_by-append (q ∷ rs) res s b = ground (arith, held_by-append rs res s b)

AreApart-append :
    (rs : List TimeFrequencyResource) (res : TimeFrequencyResource)
    → AreApart rs
    → ((s b : ℕ) → holds res s b ≡ true → held_by rs s b ≡ false)
    → AreApart (rs ++ res ∷ [])
AreApart-append [] res apart free = (tt, tt)
AreApart-append (q ∷ rs) res (first, rest) free = (
  at_end rs first λ s b h. elim (Bool-cases (holds res s b)) [
    | inl both ↦ let clash = free s b both in ground arith
    | inr apart ↦ apart
  ],
  AreApart-append rs res rest (λ s b h. ground (arith, free s b h)),
)
  where
    at_end :
        (rs : List TimeFrequencyResource)
        → All (IsApart q) rs
        → IsApart q res
        → All (IsApart q) (rs ++ res ∷ [])
    at_end [] all last = (last, tt)
    at_end (x ∷ xs) (a, all) last = (a, at_end xs all last)

-- After the reservations the cells that are taken are those of the resources and those that were
-- taken before.
pub Reserved-taken :
    {start : Cells} {rs : List TimeFrequencyResource} {cells : Cells}
    → Reserved start rs cells
    → (s b : ℕ) → cells s b ≡ (held_by rs s b || start s b)
Reserved-taken nothing s b = refl
Reserved-taken (more {taken} res before inside free) s b =
    ground (arith, Reserved-taken before s b, held_by-append taken res s b)

-- No two of the resources have a cell in common, and none has a cell that was taken before.
pub Reserved-AreApart :
    {start : Cells} {rs : List TimeFrequencyResource} {cells : Cells}
    → Reserved start rs cells
    → AreApart rs × ((s b : ℕ) → held_by rs s b ≡ true → start s b ≡ false)
Reserved-AreApart nothing = (tt, λ s b h. cc)
Reserved-AreApart (more {taken} res before inside free) =
    let (apart, new) = Reserved-AreApart before in
    (
      AreApart-append taken res apart
          (λ s b h. ground (arith, free s b h, Reserved-taken before s b)),
      λ s b h.
          ground
            (arith, free s b, new s b, Reserved-taken before s b, held_by-append taken res s b),
    )
