-- ===== src/Extractors/MapFile/Liquid/Window.antt =====
-- The window of the liquid section: it lies in the grid and holds every cell that shows liquid.
use cmangos_tbc.Base.{
  ℕ, ◌+◌, ◌*◌, ◌<◌, ◌≤◌, ◌≡◌, ◌≢◌, ◌∙◌, ◌⊎◌, inl, inr, refl, Bool, true, false, List, ◌==◌, ◌||◌,
  get_or, take, drop, length, length-append, length-take, length-drop, zero, suc, arith, Bool-cases,
  lt_or_ge,
}
use cmangos_tbc.Extractors.Float.{FloatOps}
use cmangos_tbc.Extractors.MapTables.Lookup.{length-set_at}
use cmangos_tbc.Extractors.MapFile.{GridMapLiquidHeader}
use cmangos_tbc.Extractors.MapFile.Build.{ExtractConfig}
use cmangos_tbc.Extractors.MapFile.Liquid.{
  idx_v8, idx_v9, for_range, Scan, scan_start, lower, higher, scan_shown, scan_hidden, scan_cell,
  scan_row, scan_grid, reset_window, window_row, window_rows, window_header,
}

==→eq : (a b : ℕ) → (a == b) ≡ true → a ≡ b
==→eq a b h = ground arith

-- A property that each round carries on to the next holds after the loop.
for_range_ind :
    {S : Type 0} (P : ℕ → S → Type 0) (n : ℕ) (f : ℕ → S → S) (s : S)
    → P 0 s
    → ((i : ℕ) (t : S) → i < n → P i t → P (suc i) (f i t))
    → P n (for_range n f s)
unfolding for_range
for_range_ind P zero f s start step = start
for_range_ind P (suc n) f s start step =
    step n (for_range n f s) (omega arith)
      (for_range_ind P n f s start (λ i t h. step i t (omega arith)))

-- The bounds lie in the grid, and are in order once a cell has shown liquid.
abbrev pub InGrid : Scan → Type 0
InGrid s =
    (s.max_x < 128)
    × (s.max_y < 128)
    × (((s.min_x ≡ 255) × (s.min_y ≡ 255)) ⊎ ((s.min_x ≤ s.max_x) × (s.min_y ≤ s.max_y)))

abbrev pub Covers : Scan → ℕ → ℕ → Type 0
Covers s y x = (s.min_x ≤ x) × (x ≤ s.max_x) × (s.min_y ≤ y) × (y ≤ s.max_y)

-- A cell that shows liquid.
abbrev pub Shows : List ℕ → ℕ → ℕ → Type 0
Shows liquid_show y x = get_or liquid_show (idx_v8 y x) 0 ≢ 0

module _ (float : FloatOps) (config : ExtractConfig) (show : List ℕ) (size : ℕ) where
  -- What holds when the rows up to `y`, and of row `y` the cells up to `x`, are scanned.
  Scanned : ℕ → ℕ → Scan → Type 0
  Scanned y x s =
      (length s.liquid_height ≡ size)
      × (InGrid s
          × ((j i : ℕ) → (j < y) ⊎ ((j ≡ y) × (i < x)) → i < 128 → Shows show j i → Covers s j i))

  -- The cells up to one more are those before it, and it.
  before_suc :
      (y x j i : ℕ)
      → (j < y) ⊎ ((j ≡ y) × (i < suc x))
      → ((j < y) ⊎ ((j ≡ y) × (i < x))) ⊎ ((j ≡ y) × (i ≡ x))
  before_suc y x j i (inl above) = inl (inl above)
  before_suc y x j i (inr (here, small)) = elim (lt_or_ge i x) [
    | inl left ↦ inl (inr (here, left))
    | inr last ↦ inr (here, omega arith)
  ]

  Covers-more :
      (s : Scan) (y x j i : ℕ)
      → Covers s j i
      → Covers
          (record s {
            min_x = lower s.min_x x;
            max_x = higher s.max_x x;
            min_y = lower s.min_y y;
            max_y = higher s.max_y y;
          })
          j
          i
  Covers-more s y x j i h = ground arith

  InGrid-more :
      (s : Scan) (y x : ℕ)
      → y < 128
      → x < 128
      → InGrid s
      → InGrid (record s {
        min_x = lower s.min_x x;
        max_x = higher s.max_x x;
        min_y = lower s.min_y y;
        max_y = higher s.max_y y;
      })
  InGrid-more s y x hy hx h = (ground arith, ground arith, inr (ground arith, ground arith))

  scan_cell-Scanned :
      (y x : ℕ) (s : Scan)
      → y < 128
      → x < 128
      → Scanned y x s
      → Scanned y (suc x) (scan_cell float config show y x s)
  unfolding Scanned scan_cell scan_hidden scan_shown
  scan_cell-Scanned y x s hy hx (len, (grid, seen)) =
      elim (Bool-cases (get_or show (idx_v8 y x) 0 == 0)) [
        | inl hidden ↦ rw hidden (
          length-set_at (idx_v9 y x) config.min_height s.liquid_height ∙ len,
          (
            grid,
            λ j i before hi hs. elim (before_suc y x j i before) [
              | inl old ↦ seen j i old hi hs
              | inr (ey, ex) ↦ absurd (hs (rw (ey, ex) (==→eq _ 0 hidden)))
            ],
          ),
        )
        | inr shown ↦ rw shown (
          len,
          (
            InGrid-more s y x hy hx grid,
            λ j i before hi hs. elim (before_suc y x j i before) [
              | inl old ↦ Covers-more s y x j i (seen j i old hi hs)
              | inr (ey, ex) ↦ ground arith
            ],
          ),
        )
      ]

  at_row : (y j i : ℕ) → (j < suc y) ⊎ ((j ≡ suc y) × (i < 0)) → y ≤ j → j ≡ y
  at_row y j i (inl h) here = omega arith
  at_row y j i (inr h) here = absurd (omega (arith, h.1))

  -- The first cells of the next row are those of the whole row.
  row_done : (y : ℕ) (s : Scan) → Scanned y 128 s → Scanned (suc y) 0 s
  unfolding Scanned
  row_done y s (len, (grid, seen)) = (
    len,
    (
      grid,
      λ j i before hi hs. elim (lt_or_ge j y) [
        | inl above ↦ seen j i (inl above) hi hs
        | inr here ↦ seen j i (inr (at_row y j i before here, hi)) hi hs
      ],
    ),
  )

  scan_row-Scanned :
      (y : ℕ) (s : Scan)
      → y < 128
      → Scanned y 0 s
      → Scanned (suc y) 0 (scan_row float config show y s)
  unfolding scan_row
  scan_row-Scanned y s hy h = row_done y _ (
      for_range_ind (Scanned y) 128 (scan_cell float config show y) s h
        (λ x t hx. scan_cell-Scanned y x t hy hx))

  scan_grid-Scanned :
      (heights : List ℕ)
      → length heights ≡ size
      → Scanned 128 0 (scan_grid float config show heights)
  unfolding scan_grid Scanned scan_start
  scan_grid-Scanned heights len =
      for_range_ind (λ y. Scanned y 0) 128 (scan_row float config show) (scan_start heights)
        (
          len,
          (
            (ground arith, ground arith, inl (refl, refl)),
            λ j i before hi hs. absurd (ground arith),
          ),
        )
        (λ y t hy. scan_row-Scanned y t hy)

  -- After the reset, the bounds are in order and in the grid.
  abbrev IsWindow : Scan → Type 0
  IsWindow s =
      (length s.liquid_height ≡ size)
      × ((s.min_x ≤ s.max_x)
          × ((s.min_y ≤ s.max_y)
              × ((s.max_x < 128)
                  × ((s.max_y < 128)
                      × ((j i : ℕ) → j < 128 → i < 128 → Shows show j i → Covers s j i)))))

  reset-IsWindow : (s : Scan) → Scanned 128 0 s → IsWindow (reset_window s)
  unfolding Scanned reset_window
  reset-IsWindow s (len, ((small_x, small_y, order), seen)) = elim order [
    | inl (none_x, none_y) ↦
        let reset : ((s.min_x == 255) || (s.min_y == 255)) ≡ true = ground arith in
        rw reset (
          len,
          (
            ground arith,
            (
              ground arith,
              (
                ground arith,
                (
                  ground arith,
                  λ j i hj hi hs. absurd (let c = seen j i (inl hj) hi hs in ground arith),
                ),
              ),
            ),
          ),
        )
    | inr (order_x, order_y) ↦
        let kept : ((s.min_x == 255) || (s.min_y == 255)) ≡ false = ground arith in
        rw kept
          (len, (order_x, (order_y, (small_x, (small_y, λ j i hj hi hs. seen j i (inl hj) hi hs)))))
  ]

  -- Every row of the window is as long as the window is wide.
  length-window_rows :
      (heights : List ℕ) (h : GridMapLiquidHeader) (rounds y : ℕ)
      → length heights ≡ 129 * 129
      → h.offset_x + h.width ≤ 129
      → y + rounds + h.offset_y ≤ 129
      → length (window_rows heights h rounds y) ≡ rounds * h.width
  unfolding window_rows window_row idx_v9
  length-window_rows heights h zero y len hx hy = omega arith
  length-window_rows heights h (suc rounds) y len hx hy =
      let start = (y + h.offset_y) * 129 + h.offset_x in
      let row = take h.width (drop start heights) in
      let ih = length-window_rows heights h rounds (suc y) len hx (omega arith) in
      let full : length row ≡ h.width =
        omega
          (arith, length-take {0} h.width (drop start heights), length-drop {0} start heights) in
      omega (arith, full, ih, length-append {0} row (window_rows heights h rounds (suc y)))

-- The scan of a tile's cells, and the header that is written after it.
abbrev pub scan_of : FloatOps → ExtractConfig → (liquid_show liquid_height : List ℕ) → Scan
scan_of float config show heights = reset_window (scan_grid float config show heights)

scan_of-IsWindow :
    (float : FloatOps) (config : ExtractConfig) (show heights : List ℕ)
    → length heights ≡ 129 * 129
    → IsWindow float config show (129 * 129) (scan_of float config show heights)
scan_of-IsWindow float config show heights len =
    reset-IsWindow float config show (129 * 129) (scan_grid float config show heights)
      (scan_grid-Scanned float config show (129 * 129) heights len)

-- The u8 fields of the liquid section's header have the whole values, with nothing cut off: the window
-- starts at the least cell that the scan found and ends one vertex behind the greatest one. It lies in
-- the grid of 129 by 129 heights, and no slice of a row reaches behind the heights: the rows that are
-- written are together as many heights as the window has.
pub window_rows_fit :
    (float : FloatOps) (config : ExtractConfig) (show heights : List ℕ) (is_full : Bool)
    (first_entry first_flag : ℕ) (s : Scan) (h : GridMapLiquidHeader)
    → length heights ≡ 129 * 129
    → s ≡ scan_of float config show heights
    → h ≡ window_header float config is_full first_entry first_flag s
    → ((h.offset_x ≡ s.min_x) × (h.offset_x + h.width ≡ s.max_x + 2))
      × ((h.offset_y ≡ s.min_y) × (h.offset_y + h.height ≡ s.max_y + 2))
      × (h.offset_x + h.width ≤ 129)
      × (h.offset_y + h.height ≤ 129)
      × (length (window_rows s.liquid_height h h.height 0) ≡ h.height * h.width)
unfolding window_header
window_rows_fit float config show heights is_full first_entry first_flag s h len es eh =
    let w = scan_of-IsWindow float config show heights len in
    let (size, (order_x, (order_y, (small_x, (small_y, seen))))) : IsWindow float config show
        (129 * 129) s =
      rw es w in
    let in_x : h.offset_x + h.width ≤ 129 = rw eh (omega arith) in
    let in_y : h.offset_y + h.height ≤ 129 = rw eh (omega arith) in
    (
      (rw eh (omega arith), rw eh (omega arith)),
      (rw eh (omega arith), rw eh (omega arith)),
      in_x,
      in_y,
      length-window_rows float config show (129 * 129) s.liquid_height h h.height 0 size in_x
          (omega arith),
    )

-- All four corners of every cell that shows liquid lie in the window of the liquid section.
pub window_covers :
    (float : FloatOps) (config : ExtractConfig) (show heights : List ℕ) (is_full : Bool)
    (first_entry first_flag : ℕ) (h : GridMapLiquidHeader) (y x : ℕ)
    → length heights ≡ 129 * 129
    → h
      ≡ window_header float config is_full first_entry first_flag
          (scan_of float config show heights)
    → y < 128
    → x < 128
    → Shows show y x
    → (h.offset_x ≤ x)
      × (x + 1 < h.offset_x + h.width)
      × (h.offset_y ≤ y)
      × (y + 1 < h.offset_y + h.height)
unfolding window_header
window_covers float config show heights is_full first_entry first_flag h y x len eh hy hx hs =
    let (size, (order_x, (order_y, (small_x, (small_y, seen))))) =
      scan_of-IsWindow float config show heights len in
    let (left, right, above, below) = seen y x hy hx hs in
    rw eh (omega arith, omega arith, omega arith, omega arith)
