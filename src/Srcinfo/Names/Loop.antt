-- ===== src/Srcinfo/Names/Loop.antt =====
-- The names of the blocks in the loop of `parse_srcinfo`, src/srcinfo.cpp.
use aurhub.Base.{
  ◌+◌, ◌%◌, ◌^◌, ◌≡◌, ◌≢◌, refl, sym, ap, ◌∙◌, Bool, true, false, not, ◌&&◌, ◌||◌, List, [], ◌∷◌,
  arith, inl, inr, Bool-cases, if◌then◌else◌, map, Option-cases,
}
use aurhub.Bytes.{Bytes, is_empty}
use aurhub.Srcinfo.Fields.{
  fatal, warning, SrcinfoDiagnosticCode, empty_pkgname, duplicate_pkgname, has_fatal,
}
use aurhub.Srcinfo.Key.{
  ParsedKey, is_text, is_unknown, parse_key, projected_field, allowed_in_package,
}
use aurhub.Srcinfo.Parse.{
  PackageBlock, Parser, initial, report, is_member, on_pkgbase, enter_name, on_pkgname, assign_to,
  in_package, ignore_field, on_field, on_pair, is_comment, on_line, on_lines,
}
use aurhub.Srcinfo.Text.{trim, unicode_blank, split_at}
use aurhub.Srcinfo.Fatal.{
  Keeps, add_diagnostic-Keeps, add_diagnostic-fatal, assign_projected_field-Keeps,
}

-- No name is empty, and none stands in the rest of the list.
abbrev pub AreNames : List Bytes → Type 0
AreNames [] = Unit
AreNames (x ∷ xs) = (x ≢ []) × (is_member x xs ≡ false) × AreNames xs

pub record IsNamed (p : Parser) : Type 0 where
  pub names_of : map (λ (b : PackageBlock). b.name) p.blocks ≡ p.package_names
  pub apart : AreNames p.package_names
  pub based : p.has_pkgbase ≡ true → p.base_name ≢ []

-- The invariant of the loop.
abbrev pub Good : Parser → Type 0
Good p = has_fatal p.diagnostics ≡ false → IsNamed p

pub Good-initial : Good initial
unfolding initial
Good-initial h = record { names_of = refl; apart = tt; based = λ e. cc }

report-fatal :
    (code : SrcinfoDiagnosticCode) (key : Bytes) (p : Parser)
    → has_fatal (report fatal code key p).diagnostics ≢ false
unfolding report
report-fatal code key p h =
    ground (arith, add_diagnostic-fatal p.diagnostics code p.line_number key)

report-Good :
    (code : SrcinfoDiagnosticCode) (key : Bytes) (p : Parser) → Good (report fatal code key p)
report-Good code key p h = absurd (report-fatal code key p h)

-- A step that leaves the names as they are.
same_names :
    (p q : Parser)
    → Keeps p.diagnostics q.diagnostics
    → map (λ (b : PackageBlock). b.name) q.blocks ≡ map (λ (b : PackageBlock). b.name) p.blocks
    → q.package_names ≡ p.package_names
    → q.has_pkgbase ≡ p.has_pkgbase
    → q.base_name ≡ p.base_name
    → Good p
    → Good q
same_names p q keeps blocks names has_base base good h =
    let old = good (keeps h) in
    record {
      names_of = blocks ∙ old.names_of ∙ sym names;
      apart = rw names old.apart;
      based = λ e. rw base (old.based (sym has_base ∙ e));
    }

Good-if :
    (t : Bool) (p q : Parser)
    → (t ≡ true → Good p)
    → (t ≡ false → Good q)
    → Good (if t then p else q)
Good-if true p q a b = a refl
Good-if false p q a b = b refl

not_empty : (value : Bytes) → is_empty value ≡ false → value ≢ []
unfolding is_empty
not_empty [] h e = cc
not_empty (x ∷ xs) h e = cc

on_pkgbase-Good : (key value : Bytes) (p : Parser) → Good p → Good (on_pkgbase key value p)
unfolding on_pkgbase
on_pkgbase-Good key value p good =
    Good-if p.has_pkgbase _ _ (λ _. report-Good _ key p)
      (λ _.
        Good-if (is_empty value) _ _ (λ _. report-Good _ key _)
          (λ full h. record {
            names_of = (good h).names_of;
            apart = (good h).apart;
            based = λ _. not_empty value full;
          }))

-- `enter_name` changes nothing else.
enter_name-rest :
    (key value : Bytes) (p : Parser)
    → ((enter_name key value p).blocks ≡ p.blocks)
      × ((enter_name key value p).has_pkgbase ≡ p.has_pkgbase)
      × ((enter_name key value p).base_name ≡ p.base_name)
unfolding enter_name report
enter_name-rest key value p = elim (Bool-cases (is_empty value)) [
  | inl e ↦ rw e (refl, refl, refl)
  | inr e ↦ elim (Bool-cases (is_member value p.package_names)) [
    | inl m ↦ rw (e, m) (refl, refl, refl)
    | inr m ↦ rw (e, m) (refl, refl, refl)
  ]
]

ignore_field-Good :
    (parsed : ParsedKey) (key : Bytes) (p : Parser) → Good p → Good (ignore_field parsed key p)
unfolding ignore_field
ignore_field-Good parsed key p good =
    Good-if (is_empty parsed.arch) p _ (λ _. good)
      (λ _. same_names p _ (λ h. h) refl refl refl refl good)

-- the names that `enter_name` leaves, with the block's own name in front
enter_name-Good :
    (key value : Bytes) (p q : Parser)
    → q.diagnostics ≡ (enter_name key value p).diagnostics
    → q.package_names ≡ (enter_name key value p).package_names
    → map (λ (b : PackageBlock). b.name) q.blocks
      ≡ value ∷ map (λ (b : PackageBlock). b.name) p.blocks
    → q.has_pkgbase ≡ p.has_pkgbase
    → q.base_name ≡ p.base_name
    → Good p
    → Good q
unfolding enter_name
enter_name-Good key value p q diagnostics names blocks has_base base good h =
    elim (Bool-cases (is_empty value)) [
      | inl e ↦
          let d = rw e at diagnostics in
          absurd (report-fatal empty_pkgname key p (ap has_fatal (sym d) ∙ h))
      | inr full ↦ elim (Bool-cases (is_member value p.package_names)) [
        | inl e ↦
            let d = rw (full, e) at diagnostics in
            absurd (report-fatal duplicate_pkgname key p (ap has_fatal (sym d) ∙ h))
        | inr fresh ↦
            let d = rw (full, fresh) at diagnostics in
            let n = rw (full, fresh) at names in
            let old = good (ap has_fatal (sym d) ∙ h) in
            record {
              names_of = blocks ∙ ap (◌∷◌ value) old.names_of ∙ sym n;
              apart = rw n (not_empty value full, fresh, old.apart);
              based = λ e. rw base (old.based (sym has_base ∙ e));
            }
      ]
    ]

on_pkgname-Good : (key value : Bytes) (p : Parser) → Good p → Good (on_pkgname key value p)
unfolding on_pkgname
on_pkgname-Good key value p good =
    let others = enter_name-rest key value p in
    Good-if (not p.has_pkgbase) _ _ (λ _. report-Good _ key p)
      (λ _.
        enter_name-Good key value p _ refl refl
          (ap (λ bs. value ∷ map (λ (b : PackageBlock). b.name) bs) others.0) others.1 others.2
          good)

assign_to-Good :
    (parsed : ParsedKey) (key value : Bytes) (blocks : List PackageBlock) (p : Parser)
    → p.blocks ≡ blocks
    → Good p
    → Good (assign_to parsed key value blocks p)
unfolding assign_to
assign_to-Good parsed key value [] p e =
    same_names p _
      (assign_projected_field-Keeps p.base_fields parsed key value p.line_number p.diagnostics) refl
      refl refl refl
assign_to-Good parsed key value (b ∷ blocks) p e =
    same_names p _
      (assign_projected_field-Keeps b.fields parsed key value p.line_number p.diagnostics)
      (ap (map (λ (x : PackageBlock). x.name)) (sym e)) refl refl refl

on_field-Good : (key value : Bytes) (p : Parser) → Good p → Good (on_field key value p)
unfolding on_field
on_field-Good key value p good =
    let parsed = parse_key key in
    Good-if (not p.has_pkgbase) _ _ (λ _. report-Good _ key p)
      (λ _.
        Good-if (is_unknown parsed.field) _ _ (λ _. report-Good _ key p)
          (λ _.
            Good-if (in_package p && not (allowed_in_package parsed.field)) _ _
              (λ _.
                Good-if (projected_field parsed.field) _ _ (λ _. report-Good _ key p)
                  (λ _.
                    unfold report in
                    same_names p _ (add_diagnostic-Keeps p.diagnostics warning _ p.line_number key)
                      refl refl refl refl good))
              (λ _.
                Good-if (not (projected_field parsed.field)) _ _
                  (λ _. ignore_field-Good parsed key p good)
                  (λ _. assign_to-Good parsed key value p.blocks p refl good))))

on_pair-Good : (key value : Bytes) (p : Parser) → Good p → Good (on_pair key value p)
unfolding on_pair
on_pair-Good key value p good =
    Good-if (is_empty key) _ _ (λ _. report-Good _ [] p)
      (λ _.
        Good-if (is_text key "pkgbase") _ _ (λ _. on_pkgbase-Good key value p good)
          (λ _.
            Good-if (is_text key "pkgname") _ _ (λ _. on_pkgname-Good key value p good)
              (λ _. on_field-Good key value p good)))

on_line-Good : (raw : Bytes) (p : Parser) → Good p → Good (on_line raw p)
unfolding on_line
on_line-Good raw p good =
    let line = trim raw in
    let next : Parser = record p { line_number = (p.line_number + 1) % 2 ^ 32 } in
    let counted : Good next = same_names p next (λ h. h) refl refl refl refl good in
    Good-if (is_empty line || unicode_blank line || is_comment line) _ _ (λ _. counted)
      (λ _. elim (Option-cases (split_at b'=' line)) [
        | inl e ↦ rw e (report-Good _ [] next)
        | inr ((before, after), e) ↦ rw e (on_pair-Good (trim before) (trim after) next counted)
      ])

-- The loop keeps the invariant.
pub on_lines-Good : (lines : List Bytes) (p : Parser) → Good p → Good (on_lines lines p)
unfolding on_lines
on_lines-Good [] p good = good
on_lines-Good (line ∷ lines) p good =
    on_lines-Good lines (on_line line p) (on_line-Good line p good)
