-- ===== src/Extractors/MapFile/Layout.antt =====
-- The sections of a map file lie where its header says.
use cmangos_tbc.Base.{
  ℕ, ◌+◌, ◌*◌, ◌^◌, ◌<◌, ◌≡◌, ◌∙◌, refl, sym, ap, inl, inr, Option-cases, none, some, List, [], ◌∷◌,
  ◌++◌, length, take, drop, length-append, take-append, drop-append, append_assoc, append-nil,
  arith,
}
use cmangos_tbc.Base.Bytes.{to_le, length-to_le}
use cmangos_tbc.Extractors.Reader.{concat_map}
use cmangos_tbc.Extractors.MapFile.{
  GridMapFileHeader, GridMapAreaHeader, GridMapHeightHeader, GridMapLiquidHeader, MapFileSections,
  header_bytes, area_bytes, height_bytes, liquid_bytes, liquid_section, layout_header, map_file,
  write_map_file, liquid_place, holes_place,
}

-- The lengths of the headers are the constants of the source.
length-header_bytes : (h : GridMapFileHeader) → length (header_bytes h) ≡ 40
unfolding header_bytes to_le
length-header_bytes h = refl

length-area_bytes : (h : GridMapAreaHeader) → length (area_bytes h) ≡ 8
unfolding area_bytes to_le
length-area_bytes h = refl

length-height_bytes : (h : GridMapHeightHeader) → length (height_bytes h) ≡ 16
unfolding height_bytes to_le
length-height_bytes h = refl

length-liquid_bytes : (h : GridMapLiquidHeader) → length (liquid_bytes h) ≡ 16
unfolding liquid_bytes to_le
length-liquid_bytes h = refl

pub length-concat_map : (k : ℕ) (xs : List ℕ) → length (concat_map (to_le k) xs) ≡ length xs * k
unfolding concat_map
length-concat_map k [] = omega arith
length-concat_map k (x ∷ xs) = omega (
  arith,
  length-to_le k x,
  length-concat_map k xs,
  length-append {0} (to_le k x) (concat_map (to_le k) xs),
)

abbrev pub area_part : MapFileSections → List ℕ
area_part s = area_bytes s.area_header ++ s.area_payload

abbrev pub height_part : MapFileSections → List ℕ
height_part s = height_bytes s.height_header ++ s.height_payload

abbrev pub liquid_part : MapFileSections → List ℕ
liquid_part s = liquid_section s.liquid_header s.liquid_payload

abbrev pub holes_part : MapFileSections → List ℕ
holes_part s = concat_map (to_le 2) s.holes

-- The file's size: the four headers, the payloads and two bytes for each number of holes.
abbrev pub file_size : MapFileSections → ℕ
file_size s =
    40 + length (area_part s) + length (height_part s) + length (liquid_part s) + length s.holes * 2

-- The bytes that an offset and a size name.
abbrev pub section : (offset size : ℕ) → List ℕ → List ℕ
section offset size file = take size (drop offset file)

section_middle :
    (front middle back : List ℕ) (offset size : ℕ)
    → offset ≡ length front
    → size ≡ length middle
    → section offset size (front ++ (middle ++ back)) ≡ middle
section_middle front middle back offset size eo es =
    rw (eo, es, drop-append front (middle ++ back)) (take-append middle back)

section_last :
    (front middle : List ℕ) (offset size : ℕ)
    → offset ≡ length front
    → size ≡ length middle
    → section offset size (front ++ middle) ≡ middle
section_last front middle offset size eo es =
    rw (eo, es, drop-append front middle)
      (ap (take (length middle)) (sym (append-nil middle)) ∙ take-append middle [])

-- The offsets and sizes of the header, without the wrap-around.
unfoldable pub Placed : GridMapFileHeader → MapFileSections → Type 0
Placed h s =
    (h.area_map_offset ≡ 40)
    × (h.area_map_size ≡ length (area_part s))
    × (h.height_map_offset ≡ 40 + length (area_part s))
    × (h.height_map_size ≡ length (height_part s))
    × (h.liquid_map_size ≡ length (liquid_part s))
    × (h.holes_offset ≡ 40 + length (area_part s) + length (height_part s) + length (liquid_part s))
    × (h.holes_size ≡ length s.holes * 2)

pub layout-Placed : (s : MapFileSections) → file_size s < 2 ^ 32 → Placed (layout_header s) s
unfolding layout_header Placed area_bytes height_bytes liquid_bytes liquid_section liquid_place
    holes_place to_le
layout-Placed s h =
    let area : length (area_part s) ≡ 8 + length s.area_payload =
      length-append {0} (area_bytes s.area_header) s.area_payload in
    let height : length (height_part s) ≡ 16 + length s.height_payload =
      length-append {0} (height_bytes s.height_header) s.height_payload in
    elim (Option-cases s.liquid_header) [
      | inl without ↦
          let liquid : length (liquid_part s) ≡ 0 = rw (without, liquid_section) refl in
          (
            refl,
            omega arith,
            omega arith,
            omega arith,
            rw without (omega arith),
            rw without (omega arith),
            omega arith,
          )
      | inr (l, with_liquid) ↦
          let liquid : length (liquid_part s) ≡ 16 + length s.liquid_payload =
            rw (with_liquid, liquid_section)
              (length-append {0} (liquid_bytes l) s.liquid_payload) in
          (
            refl,
            omega arith,
            omega arith,
            omega arith,
            rw with_liquid (omega arith),
            rw with_liquid (omega arith),
            omega arith,
          )
    ]

-- The liquid section, where there is one, follows the heights; else its offset is 0.
layout_liquid_offset :
    (s : MapFileSections) (l : GridMapLiquidHeader)
    → file_size s < 2 ^ 32
    → s.liquid_header ≡ some l
    → (layout_header s).liquid_map_offset ≡ 40 + length (area_part s) + length (height_part s)
unfolding layout_header area_bytes height_bytes liquid_place to_le
layout_liquid_offset s l h e =
    let area : length (area_part s) ≡ 8 + length s.area_payload =
      length-append {0} (area_bytes s.area_header) s.area_payload in
    let height : length (height_part s) ≡ 16 + length s.height_payload =
      length-append {0} (height_bytes s.height_header) s.height_payload in
    rw e (omega arith)

pub layout_no_liquid :
    (s : MapFileSections) → s.liquid_header ≡ none → (layout_header s).liquid_map_offset ≡ 0
unfolding layout_header liquid_place
layout_no_liquid s e = rw e refl

pub layout_liquid_offset_small :
    (s : MapFileSections) → file_size s < 2 ^ 32 → (layout_header s).liquid_map_offset < 2 ^ 32
layout_liquid_offset_small s h = elim (Option-cases s.liquid_header) [
  | inl e ↦ omega (arith, layout_no_liquid s e)
  | inr (l, e) ↦ omega (arith, layout_liquid_offset s l h e)
]

-- The parts of the file in front of a section.
abbrev before_height : MapFileSections → List ℕ
before_height s = header_bytes (layout_header s) ++ area_part s

abbrev before_liquid : MapFileSections → List ℕ
before_liquid s = before_height s ++ height_part s

abbrev before_holes : MapFileSections → List ℕ
before_holes s = before_liquid s ++ liquid_part s

map_file-height :
    (s : MapFileSections)
    → map_file s ≡ before_height s ++ (height_part s ++ (liquid_part s ++ holes_part s))
unfolding map_file write_map_file
map_file-height s = sym (append_assoc (header_bytes (layout_header s)) (area_part s) _)

map_file-liquid :
    (s : MapFileSections) → map_file s ≡ before_liquid s ++ (liquid_part s ++ holes_part s)
map_file-liquid s =
    map_file-height s
    ∙ sym (append_assoc (before_height s) (height_part s) (liquid_part s ++ holes_part s))

map_file-holes : (s : MapFileSections) → map_file s ≡ before_holes s ++ holes_part s
map_file-holes s =
    map_file-liquid s ∙ sym (append_assoc (before_liquid s) (liquid_part s) (holes_part s))

length-before_height : (s : MapFileSections) → length (before_height s) ≡ 40 + length (area_part s)
length-before_height s = omega (
  arith,
  length-append {0} (header_bytes (layout_header s)) (area_part s),
  length-header_bytes (layout_header s),
)

length-before_liquid :
    (s : MapFileSections)
    → length (before_liquid s) ≡ 40 + length (area_part s) + length (height_part s)
length-before_liquid s =
    omega (arith, length-append {0} (before_height s) (height_part s), length-before_height s)

length-before_holes :
    (s : MapFileSections)
    → length (before_holes s)
      ≡ 40 + length (area_part s) + length (height_part s) + length (liquid_part s)
length-before_holes s =
    omega (arith, length-append {0} (before_liquid s) (liquid_part s), length-before_liquid s)

-- Where a seek to the heights and to the holes leads.
pub drop-height :
    (s : MapFileSections)
    → file_size s < 2 ^ 32
    → drop (layout_header s).height_map_offset (map_file s)
      ≡ height_part s ++ (liquid_part s ++ holes_part s)
unfolding Placed
drop-height s small =
    let offset : (layout_header s).height_map_offset ≡ length (before_height s) =
      omega (arith, (layout-Placed s small).2, length-before_height s) in
    rw (offset, map_file-height s)
      (drop-append (before_height s) (height_part s ++ (liquid_part s ++ holes_part s)))

pub drop-holes :
    (s : MapFileSections)
    → file_size s < 2 ^ 32
    → drop (layout_header s).holes_offset (map_file s) ≡ holes_part s
unfolding Placed
drop-holes s small =
    let offset : (layout_header s).holes_offset ≡ length (before_holes s) =
      omega (arith, (layout-Placed s small).5, length-before_holes s) in
    rw (offset, map_file-holes s) (drop-append (before_holes s) (holes_part s))

-- In a file below 4 GiB, the offsets and sizes that the header names cut out the area section, the
-- height section and the holes, whole and unchanged, and the holes end the file.
pub sections_placed :
    (s : MapFileSections) (h : GridMapFileHeader)
    → file_size s < 2 ^ 32
    → h ≡ layout_header s
    → (section h.area_map_offset h.area_map_size (map_file s) ≡ area_part s)
      × (section h.height_map_offset h.height_map_size (map_file s) ≡ height_part s)
      × (section h.holes_offset h.holes_size (map_file s) ≡ holes_part s)
      × (length (map_file s) ≡ h.holes_offset + h.holes_size)
unfolding map_file write_map_file Placed
sections_placed s h small eh =
    let (area_off, area_size, height_off, height_size, liquid_size, holes_off, holes_size) =
      layout-Placed s small in
    let holes : length (holes_part s) ≡ length s.holes * 2 = length-concat_map 2 s.holes in
    let d = layout_header s in
    let area_here : section d.area_map_offset d.area_map_size (map_file s) ≡ area_part s =
      section_middle (header_bytes d) (area_part s)
        (height_part s ++ (liquid_part s ++ holes_part s)) d.area_map_offset d.area_map_size
        (omega (arith, area_off, length-header_bytes d)) area_size in
    let height_here : section d.height_map_offset d.height_map_size (map_file s) ≡ height_part s =
      rw (map_file-height s) (
        section_middle (before_height s) (height_part s) (liquid_part s ++ holes_part s)
          d.height_map_offset d.height_map_size (omega (arith, length-before_height s))
          height_size) in
    let holes_here : section d.holes_offset d.holes_size (map_file s) ≡ holes_part s =
      rw (map_file-holes s) (
        section_last (before_holes s) (holes_part s) d.holes_offset d.holes_size
          (omega (arith, length-before_holes s)) (omega arith)) in
    let end_here : length (map_file s) ≡ d.holes_offset + d.holes_size =
      ap length (map_file-holes s)
      ∙ omega (arith, length-append {0} (before_holes s) (holes_part s), length-before_holes s) in
    rw eh (area_here, height_here, holes_here, end_here)

-- Likewise the liquid section, where there is one.
pub liquid_section_placed :
    (s : MapFileSections) (h : GridMapFileHeader) (l : GridMapLiquidHeader)
    → file_size s < 2 ^ 32
    → h ≡ layout_header s
    → s.liquid_header ≡ some l
    → section h.liquid_map_offset h.liquid_map_size (map_file s)
      ≡ liquid_bytes l ++ s.liquid_payload
unfolding liquid_section Placed
liquid_section_placed s h l small eh el =
    let (area_off, area_size, height_off, height_size, liquid_size, holes_off, holes_size) =
      layout-Placed s small in
    let there : liquid_part s ≡ liquid_bytes l ++ s.liquid_payload = rw el refl in
    rw (eh, map_file-liquid s)
      (section_middle (before_liquid s) (liquid_part s) (holes_part s) _ _
        (layout_liquid_offset s l small el ∙ sym (length-before_liquid s)) liquid_size)
    ∙ there
