-- ===== src/Picker/Geometry/Pages.antt =====
-- crates/app/profile-picker/src/geometry.rs: the pages and sectors of a roster.
use native.Mathlib.Nat.{div-add-mod', mul-le-mul_right, mod-lt, div-lt_iff_lt-mul}
use steam_controller_bridge.Common.{
  ℕ, suc, ◌+◌, ◌*◌, ◌/◌, ◌%◌, ◌≤◌, ◌<◌, ◌≡◌, sym, subst, ap, if-ind, arith, leb,
}
use steam_controller_bridge.Float.{Float}
use steam_controller_bridge.Picker.Geometry.{page_count, sectors_on_page, sector_for}

no_pages : (q n : ℕ) → q ≡ 0 → q * n ≡ 0
no_pages q n e = subst (λ m. m * n ≡ 0) (sym e) (omega arith)

pub page_count-pos : (len per_page : ℕ) → 0 < page_count len per_page
unfolding page_count
page_count-pos len per_page =
    ground (arith, div-add-mod' len per_page, no_pages (len / per_page) per_page)

pub sectors_on_page-pos :
    (len per_page page : ℕ) → 0 < per_page → 0 < sectors_on_page len per_page page
unfolding sectors_on_page
sectors_on_page-pos len per_page page h = ground arith

suc-mul : (m n : ℕ) → suc m * n ≡ m * n + n
suc-mul m n = omega arith

full_page : (len per_page page : ℕ) → page < len / per_page → page * per_page + per_page ≤ len
full_page len per_page page h =
    omega (arith, div-add-mod' len per_page, mul-le-mul_right per_page h, suc-mul page per_page)

-- A page of the wheel begins inside the roster.
page_start :
    (len per_page page : ℕ)
    → 0 < per_page
    → 0 < len
    → page < page_count len per_page
    → page * per_page < len
unfolding page_count
page_start len per_page page p l h = ground (
  arith,
  div-add-mod' len per_page,
  full_page len per_page page,
  λ (e : page ≡ len / per_page). ap (λ q. q * per_page) e,
)

pub on_page :
    (len per_page page sector : ℕ)
    → 0 < per_page
    → 0 < len
    → page < page_count len per_page
    → sector < sectors_on_page len per_page page
    → (sector < per_page) × (page * per_page + sector < len)
unfolding sectors_on_page
on_page len per_page page sector p l h k = (
  ground (arith, page_start len per_page page p l h),
  ground (arith, page_start len per_page page p l h),
)

pub sector_for-lt :
    (f : Float) (x y : Float.F f) (sectors : ℕ) → 0 < sectors → sector_for f x y sectors < sectors
unfolding sector_for
sector_for-lt f x y sectors h = if-ind (λ n. n < sectors) (leb sectors 1) h (mod-lt _ h)

-- The page and sector of an index
pub page_of-lt :
    (len per_page index : ℕ)
    → 0 < per_page
    → index < len
    → (index / per_page < page_count len per_page)
      × (index % per_page < sectors_on_page len per_page (index / per_page))
      × (index / per_page * per_page + index % per_page ≡ index)
unfolding page_count sectors_on_page
page_of-lt len per_page index p h = (
  ground (
    arith,
    div-add-mod' len per_page,
    mod-lt len p,
    suc-mul (len / per_page) per_page,
    λ (b : index < len / per_page * per_page). (div-lt_iff_lt-mul p).1 b,
    λ (b : index < suc (len / per_page) * per_page). (div-lt_iff_lt-mul p).1 b,
  ),
  ground (arith, div-add-mod' index per_page, mod-lt index p),
  div-add-mod' index per_page,
)
