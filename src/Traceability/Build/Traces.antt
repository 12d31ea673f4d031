-- ===== src/Traceability/Build/Traces.antt =====
-- The element traces of a report.
use clanker_foundry.Prelude.{
  ◌≡◌, ◌↔◌, ◌⊎◌, refl, sym, subst, ap, ◌∙◌, true, false, some, List, [], ◌∷◌, Memᴰ, All, All_at,
  Bool-cases, inl, inr, find_first-some,
}
use mathlib.Core.List.Memᴰ
use clanker_foundry.Text.{Str, str_eq}
use clanker_foundry.Text.Laws.{str_eq_iff}
use clanker_foundry.Sort.{sort_less}
use clanker_foundry.Model.{Model}
use clanker_foundry.Traceability.{
  ModelLink, LinkedRequirement, Document, Element, AcceptanceCase, elements, find_element,
  kind_guard, kind_model_requirement, uniq,
}
use clanker_foundry.Traceability.Build.{element_trace, element_less, trace_report}
use clanker_foundry.Traceability.Reports.{ElementTrace, Inputs}
use clanker_foundry.Traceability.Tracing.{
  Traced, nothing_traced, trace_link, trace_cases, trace_all, element_at,
}
use clanker_foundry.Traceability.Build.Links.{uniq-mem, append_to-mem, all_mem, Hits}
use clanker_foundry.Traceability.Issues.Accepts.{Resolves}
use clanker_foundry.Traceability.Issues.WellLinked.{IsWellLinked}
use clanker_foundry.Traceability.Issues.Linked.{IsLinked}

module _ (els : List Element) (cases : List AcceptanceCase) (k : Str) where
  abbrev DirectHit : ModelLink → Type 0
  DirectHit l = k ≡ (element_at els l.id).id

  abbrev GuardHit : ModelLink → Type 0
  GuardHit l =
      ((element_at els l.id).kind ≡ kind_guard) × (k ≡ (element_at els l.id).guard_requirement)

  direct_step :
      (id x : Str) (l : ModelLink) (t : Traced)
      → Memᴰ x ((trace_link els id l t).direct k) ↔ (Memᴰ x (t.direct k) ⊎ (DirectHit l × (x ≡ id)))
  unfolding trace_link
  direct_step id x l t = append_to-mem (element_at els l.id).id id k x t.direct

  direct_keep : (id c : Str) (t : Traced) → (trace_cases cases id (c ∷ []) t).direct k ≡ t.direct k
  unfolding trace_cases
  direct_keep id c t = refl

  guard_step :
      (id x : Str) (l : ModelLink) (t : Traced)
      → Memᴰ x ((trace_link els id l t).via_guard k)
        ↔ (Memᴰ x (t.via_guard k) ⊎ (GuardHit l × (x ≡ id)))
  unfolding trace_link
  guard_step id x l t =
      let el = element_at els l.id in
      let iff = append_to-mem el.guard_requirement id k x t.via_guard in
      elim (Bool-cases (str_eq el.kind kind_guard)) [
        | inl e ↦ rw e (
          λ m. elim (iff.0 m) [ inl n ↦ inl n | inr p ↦ inr (((str_eq_iff _ _).0 e, p.0), p.1) ],
          λ h. iff.1 (elim h [ inl n ↦ inl n | inr p ↦ inr (p.0.1, p.1) ]),
        )
        | inr e ↦ rw e (λ m. inl m, λ h. elim h [ inl n ↦ n | inr p ↦ absurd (other e p.0.0) ])
      ]
    where
      other :
          str_eq (element_at els l.id).kind kind_guard ≡ false
          → ¬ ((element_at els l.id).kind ≡ kind_guard)
      other e p = clash (sym e ∙ (str_eq_iff _ _).1 p)
        where
          clash : ¬ (false ≡ true)
          clash h = cc h

  guard_keep :
      (id c : Str) (t : Traced) → (trace_cases cases id (c ∷ []) t).via_guard k ≡ t.via_guard k
  unfolding trace_cases
  guard_keep id c t = refl

  direct_mem :
      (x : Str) (rs : List LinkedRequirement)
      → Memᴰ x ((trace_all els cases rs nothing_traced).direct k)
        ↔ Hits els cases (λ t. t.direct k) DirectHit direct_step direct_keep rs x
  unfolding nothing_traced
  direct_mem x rs =
      let iff =
        all_mem els cases (λ t. t.direct k) DirectHit direct_step direct_keep x rs nothing_traced in
      (λ m. elim (iff.0 m) [ inl n ↦ absurd (Memᴰ.not-nil n) | inr h ↦ h ], λ h. iff.1 (inr h))

  guard_mem :
      (x : Str) (rs : List LinkedRequirement)
      → Memᴰ x ((trace_all els cases rs nothing_traced).via_guard k)
        ↔ Hits els cases (λ t. t.via_guard k) GuardHit guard_step guard_keep rs x
  unfolding nothing_traced
  guard_mem x rs =
      let iff =
        all_mem els cases (λ t. t.via_guard k) GuardHit guard_step guard_keep x rs nothing_traced in
      (λ m. elim (iff.0 m) [ inl n ↦ absurd (Memᴰ.not-nil n) | inr h ↦ h ], λ h. iff.1 (inr h))

-- A link of the requirement `x` names the element.
abbrev pub LinksTo : List LinkedRequirement → Str → Str → Type 0
LinksTo rs id x =
    (r : LinkedRequirement) × Memᴰ r rs
    × (r.id ≡ x)
    × ((l : ModelLink) × Memᴰ l r.model_links × (l.id ≡ id))

-- A link of the requirement `x` names a guard that is declared for the model requirement.
abbrev pub GuardsTo : List Element → List LinkedRequirement → Str → Str → Type 0
GuardsTo els rs id x =
    (r : LinkedRequirement) × Memᴰ r rs
    × (r.id ≡ x)
    × ((l : ModelLink) × Memᴰ l r.model_links
        × ((g : Element) × (find_element els l.id ≡ some g)
            × (g.kind ≡ kind_guard)
            × (g.guard_requirement ≡ id)))

element_at_lem :
    (els : List Element) (id : Str) {el : Element}
    → find_element els id ≡ some el
    → (element_at els id ≡ el) × (el.id ≡ id)
unfolding element_at find_element
element_at_lem els id {el} h = (
  rw (h, element_at) refl,
  (str_eq_iff el.id id).0 (find_first-some (λ e. str_eq e.id id) els el h).1,
)

module _ (els : List Element) (cases : List AcceptanceCase) (rs : List LinkedRequirement)
    (linked : All (IsLinked els cases) rs) where
  -- The element that a link of a requirement resolves to.
  resolved_at :
      (r : LinkedRequirement) (l : ModelLink)
      → Memᴰ r rs
      → Memᴰ l r.model_links
      → (el : Element) × (find_element els l.id ≡ some el)
        × (element_at els l.id ≡ el)
        × (el.id ≡ l.id)
  resolved_at r l m n =
      let resolved =
        All_at (Resolves els) r.model_links (All_at (IsLinked els cases) rs linked m).resolved n in
      let (el, at, kind) = resolved.1 in
      let (same, id) = element_at_lem els l.id at in (el, at, same, id)

  direct_LinksTo :
      (id x : Str)
      → Memᴰ x (uniq ((trace_all els cases rs nothing_traced).direct id)) ↔ LinksTo rs id x
  direct_LinksTo id x =
      let one = uniq-mem x ((trace_all els cases rs nothing_traced).direct id) in
      let iff = direct_mem els cases id x rs in
      (
        λ m.
            let (r, k, e, (l, n, hit)) = iff.0 (one.0 m) in
            let (el, at, same, name) = resolved_at r l k n in
            (r, k, e, (l, n, sym name ∙ (ap (λ w. w.id) (sym same) ∙ sym hit))),
        λ (h : LinksTo rs id x).
            let (r, k, e, (l, n, hit)) = h in
            let (el, at, same, name) = resolved_at r l k n in
            one.1 (iff.1 (r, k, e, (l, n, sym hit ∙ (sym name ∙ ap (λ w. w.id) (sym same))))),
      )

  guard_GuardsTo :
      (id x : Str)
      → Memᴰ x (uniq ((trace_all els cases rs nothing_traced).via_guard id)) ↔ GuardsTo els rs id x
  guard_GuardsTo id x =
      let one = uniq-mem x ((trace_all els cases rs nothing_traced).via_guard id) in
      let iff = guard_mem els cases id x rs in
      (
        λ m.
            let (r, k, e, (l, n, hit)) = iff.0 (one.0 m) in
            let (el, at, same, name) = resolved_at r l k n in
            (
              r,
              k,
              e,
              (
                l,
                n,
                (
                  el,
                  at,
                  ap (λ w. w.kind) (sym same) ∙ hit.0,
                  ap (λ w. w.guard_requirement) (sym same) ∙ sym hit.1,
                ),
              ),
            ),
        λ (h : GuardsTo els rs id x).
            let (r, k, e, (l, n, (g, at, kind, id_of))) = h in
            let (same, name) = element_at_lem els l.id at in
            one.1 (
              iff.1 (
                r,
                k,
                e,
                (
                  l,
                  n,
                  (
                    ap (λ w. w.kind) same ∙ kind,
                    sym id_of ∙ ap (λ w. w.guard_requirement) (sym same),
                  ),
                ),
              )),
      )

  element_traced :
      (el : Element) (x : Str)
      → let et = element_trace (trace_all els cases rs nothing_traced) el in
        (Memᴰ x et.traced_by ↔ LinksTo rs et.id x)
        × (Memᴰ x et.traced_via_guard
            ↔ ((et.kind ≡ kind_model_requirement) × GuardsTo els rs et.id x))
  unfolding element_trace
  element_traced el x = elim (Bool-cases (str_eq el.kind kind_model_requirement)) [
    | inl e ↦
        let via = guard_GuardsTo el.id x in
        (direct_LinksTo el.id x, rw e (λ m. ((str_eq_iff _ _).0 e, via.0 m), λ h. via.1 h.1))
    | inr e ↦
        (direct_LinksTo el.id x, rw e (λ m. absurd (Memᴰ.not-nil m), λ h. absurd (other e h.0)))
  ]
    where
      other : str_eq el.kind kind_model_requirement ≡ false → ¬ (el.kind ≡ kind_model_requirement)
      other e p = clash (sym e ∙ (str_eq_iff _ _).1 p)
        where
          clash : ¬ (false ≡ true)
          clash h = cc h

-- In the report of a document that is well linked, an element lists exactly the requirements with a
-- link that names it, and, if it is a model requirement, exactly those with a link that names a
-- guard declared for it; any other element lists none of those.
pub element_traces_iff :
    (to_lower : Str → Str) (doc : Document) (m : Model) (cases : List AcceptanceCase)
    (inputs : Inputs) (et : ElementTrace) (x : Str)
    → IsWellLinked to_lower doc m (elements m) cases
    → Memᴰ et (trace_report m cases doc.requirements inputs).model_elements
    → (Memᴰ x et.traced_by ↔ LinksTo doc.requirements et.id x)
      × (Memᴰ x et.traced_via_guard
          ↔ ((et.kind ≡ kind_model_requirement) × GuardsTo (elements m) doc.requirements et.id x))
unfolding trace_report
element_traces_iff to_lower doc m cases inputs et x linked k =
    let (el, n, e) =
      Memᴰ.of_map (element_trace (trace_all (elements m) cases doc.requirements nothing_traced))
        (sort_less element_less (elements m)) k in
    subst
      (λ w.
        (Memᴰ x w.traced_by ↔ LinksTo doc.requirements w.id x)
        × (Memᴰ x w.traced_via_guard
            ↔ ((w.kind ≡ kind_model_requirement) × GuardsTo (elements m) doc.requirements w.id x)))
      e (element_traced (elements m) cases doc.requirements linked.linked el x)
