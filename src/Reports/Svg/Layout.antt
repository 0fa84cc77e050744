-- ===== src/Reports/Svg/Layout.antt =====
-- Where the elements of the dashboard stand.
use kiemchung_ibex_v.Base.{
  ℕ, ◌+◌, List, [], ◌∷◌, ◌++◌, some, length, get_elem?, ◌≡◌, refl, ap, ◌∙◌, arith,
}
use kiemchung_ibex_v.Base.Int.{pos}
use kiemchung_ibex_v.Reports.Svg.{
  group, to_elements, DashboardElement, element_elements, element_width, elements_from,
  create_svg_elements, widths_from, calc_total_width,
}

-- The widths of elements, each with a gap behind it
abbrev pub taken : ℕ → List DashboardElement → ℕ
taken gap [] = 0
taken gap (d ∷ ds) = element_width d + gap + taken gap ds

widths_from-taken :
    (gap acc : ℕ) (ds : List DashboardElement) → widths_from gap acc ds ≡ acc + taken gap ds
unfolding widths_from
widths_from-taken gap acc [] = omega arith
widths_from-taken gap acc (d ∷ ds) =
    omega (arith, widths_from-taken gap (acc + element_width d + gap) ds)

elements_from-placed :
    (gap x : ℕ) (before after : List DashboardElement) (d : DashboardElement)
    → get_elem? (elements_from gap x (before ++ d ∷ after)) (length before)
      ≡ some (group (some (x + taken gap before, 0)) (to_elements (element_elements d)))
unfolding elements_from
elements_from-placed gap x [] after d = ground arith
elements_from-placed gap x (b ∷ before) after d =
    elements_from-placed gap (x + element_width b + gap) before after d
    ∙ ap (λ n. some (group (some (n, 0)) (to_elements (element_elements d)))) (omega arith)

taken-append :
    (gap : ℕ) (before : List DashboardElement) (d : DashboardElement)
    (after : List DashboardElement)
    → taken gap (before ++ d ∷ after) ≡ taken gap before + element_width d + gap + taken gap after
taken-append gap [] d after = omega arith
taken-append gap (b ∷ before) d after = omega (arith, taken-append gap before d after)

-- Each element of a dashboard is moved to the right by the widths and gaps of those before it, so
-- the next begins one gap behind its end; it ends within the total width of the dashboard, and the
-- last one exactly there.
pub create_svg_elements-placed :
    (gap : ℕ) (before after : List DashboardElement) (d : DashboardElement)
    → (width : ℕ) × (get_elem?
          (create_svg_elements
            (record { dashboard_elements = before ++ d ∷ after; element_gap = gap }))
          (length before)
        ≡ some (group (some (taken gap before, 0)) (to_elements (element_elements d))))
      × (calc_total_width (record { dashboard_elements = before ++ d ∷ after; element_gap = gap })
          ≡ pos width)
      × (width ≡ taken gap before + element_width d + taken gap after)
unfolding create_svg_elements calc_total_width
create_svg_elements-placed gap before after d = (
  taken gap before + element_width d + taken gap after,
  elements_from-placed gap 0 before after d
      ∙ ap (λ n. some (group (some (n, 0)) (to_elements (element_elements d)))) (omega arith),
  ground (arith, widths_from-taken gap 0 (before ++ d ∷ after), taken-append gap before d after),
  refl,
)
