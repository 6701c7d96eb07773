-- ===== src/Versioning/Admit/Targets.antt =====
-- internal/engine/manifold/versioning/internal/admit/admit.go: the targets of selectors.
use quiver_core.Prelude.{
  Bool, true, false, Option, none, some, Str, str_eq, str_eq_iff, find_first-Occurs, Occurs,
  Option-cases, ◌≡◌, inl, inr, refl, sym, ap, ◌∙◌, subst,
}
use quiver_core.Domain.Selector.{
  SelectorKind, pin, tag_pin, branch_pin, channel, ordered_channel, pointer_channel, branch_channel,
  constraint, commit_pin, unknown, RefSnapshot, commit,
}
use quiver_core.Versioning.Number.{lower_case}
use quiver_core.Versioning.Ranking.{Match, highest, no_match, bad_pattern, highest_match}
use quiver_core.Versioning.Ranking.Matches.{highest_match-Occurs}
use quiver_core.Versioning.Channels.{channels_of, find_channel, sorted_tags}
use quiver_core.Versioning.Channels.Found.{latest-Occurs, members-Occurs, sorted_tags-Occurs}
use quiver_core.Versioning.Selector.{
  lookup_ref, IsPlain, followed_ref-plain, followed_ref, pinned_ref, ref_commit,
}
use quiver_core.Versioning.Drift.{
  Available, available_at, found_target, value_or_empty, latest_tag, match_target, is_ordered_named,
  find_ordered, is_commit_pin, channel_target, ordered_target, constraint_target, target,
}
use quiver_core.Versioning.Admit.{admitted, is_true, equal_fold, admits, admit}
use quiver_core.Versioning.Admit.Refs.{
  commit-tag, lookup_ref-commit, admit-admitted, find_ordered-find_in, is_ordered_named-ordered,
  ordered_admits-member, channel_admits-latest,
}

module _ (path_match : Str → Str → Option Bool) (selector : Str) (snap : RefSnapshot)
    (a : Available) where
  admit-same :
      (kind : SelectorKind) (r v : Str)
      → some (record { ref = r; commit = v }) ≡ some a
      → admit path_match kind selector r snap ≡ admitted (record { ref = r; commit = v })
      → admit path_match kind selector a.ref snap ≡ admitted a
  admit-same kind r v e h =
      let same : record { ref = r; commit = v } ≡ a = cc e in
      subst (λ (x : Available). admit path_match kind selector x.ref snap ≡ admitted x) same h

  ordered_target-admitted :
      ordered_target selector snap ≡ some a
      → admit path_match ordered_channel selector a.ref snap ≡ admitted a
  unfolding ordered_target is_commit_pin ref_commit
  ordered_target-admitted h = elim (Option-cases (find_ordered selector (channels_of snap))) [
    | inl n ↦ cc (h, ap (latest_tag snap) n)
    | inr (c, found) ↦
        let (o, named) : Occurs c (channels_of snap) × (is_ordered_named selector c ≡ true) =
          unfold find_ordered in
          find_first-Occurs (is_ordered_named selector) c (channels_of snap) found in
        let i = is_ordered_named-ordered selector c named in
        let latest = latest-Occurs snap c o i in
        let (v, tagged) =
          sorted_tags-Occurs c.latest snap (members-Occurs snap c c.latest o i latest) in
        let at : some (record { ref = c.latest; commit = v }) ≡ some a =
          unfold latest_tag in sym (rw (found, tagged) refl) ∙ h in
        let holds : admits path_match ordered_channel selector c.latest v snap ≡ true =
          unfold admits in
          ordered_admits-member selector c.latest snap c
            (find_ordered-find_in selector none c (channels_of snap) found) i latest in
        admit-same ordered_channel c.latest v at (
          admit-admitted path_match ordered_channel selector c.latest v v snap refl
            (commit-tag snap c.latest v tagged) tagged holds)
  ]

  channel_target-admitted :
      IsPlain selector
      → channel_target selector snap ≡ some a
      → admit path_match channel selector a.ref snap ≡ admitted a
  unfolding channel_target found_target available_at is_commit_pin
  channel_target-admitted plain h = elim (Option-cases (find_channel selector snap)) [
    | inl n ↦ cc (h, ap (found_target snap) n)
    | inr (c, found) ↦ elim (Option-cases (commit snap c.latest)) [
      | inl n ↦ cc (h, ap (found_target snap) found, ap (available_at c.latest) n)
      | inr (v, e) ↦
          let at : some (record { ref = c.latest; commit = v }) ≡ some a =
            sym (ap (found_target snap) found ∙ ap (available_at c.latest) e) ∙ h in
          let at_row : ref_commit channel selector c.latest snap ≡ some v =
            unfold ref_commit lookup_ref in
            ap (λ source. lookup_ref source c.latest snap)
              (followed_ref-plain channel selector plain)
            ∙ e in
          let holds : admits path_match channel selector c.latest v snap ≡ true =
            unfold admits in channel_admits-latest selector snap c found in
          admit-same channel c.latest v at
            (admit-admitted path_match channel selector c.latest v v snap refl e at_row holds)
    ]
  ]

  constraint_target-admitted :
      constraint_target path_match selector snap ≡ some a
      → admit path_match constraint selector a.ref snap ≡ admitted a
  unfolding constraint_target is_commit_pin ref_commit
  constraint_target-admitted h = go (highest_match path_match (sorted_tags snap) selector) refl h
    where
      go :
          (m : Match)
          → highest_match path_match (sorted_tags snap) selector ≡ m
          → match_target snap m ≡ some a
          → admit path_match constraint selector a.ref snap ≡ admitted a
      go no_match e k = absurd (unfold match_target in cc)
      go bad_pattern e k = absurd (unfold match_target in cc)
      go (highest t) e k =
          let (o, matches) = highest_match-Occurs path_match selector t (sorted_tags snap) e in
          let (v, tagged) = sorted_tags-Occurs t snap o in
          let at : some (record { ref = t; commit = v }) ≡ some a =
            unfold match_target value_or_empty in sym (rw tagged refl) ∙ k in
          let holds : admits path_match constraint selector t v snap ≡ true =
            unfold admits is_true in rw matches refl in
          admit-same constraint t v at (
            admit-admitted path_match constraint selector t v v snap refl
              (commit-tag snap t v tagged) tagged holds)

  commit_target-admitted :
      some (record { ref = selector; commit = selector }) ≡ some a
      → admit path_match commit_pin selector a.ref snap ≡ admitted a
  unfolding admit is_commit_pin equal_fold
  commit_target-admitted h =
      admit-same commit_pin selector selector h
        (rw ((str_eq_iff (lower_case selector) (lower_case selector)).1 refl) refl)

  pinned_target-admitted :
      (kind : SelectorKind)
      → is_commit_pin kind ≡ false
      → ((r : Str)
          → ref_commit kind selector r snap ≡ lookup_ref (followed_ref kind selector).1 r snap)
      → ((r v : Str)
          → admits path_match kind selector r v snap ≡ str_eq (followed_ref kind selector).0 r)
      → available_at
          (followed_ref kind selector).0
          (lookup_ref (followed_ref kind selector).1 (followed_ref kind selector).0 snap)
        ≡ some a
      → admit path_match kind selector a.ref snap ≡ admitted a
  pinned_target-admitted kind k looked ruled h =
      let (name, source) = followed_ref kind selector in
      elim (Option-cases (lookup_ref source name snap)) [
        | inl n ↦ unfold available_at in cc (h, ap (available_at name) n)
        | inr (v, e) ↦
            let at : some (record { ref = name; commit = v }) ≡ some a =
              unfold available_at in sym (ap (available_at name) e) ∙ h in
            let (w, c) = lookup_ref-commit source name v snap e in
            admit-same kind name v at (
              admit-admitted path_match kind selector name v w snap k c (looked name ∙ e)
                (ruled name v ∙ (str_eq_iff name name).1 refl))
      ]

-- The target of a selector is admitted for a row that follows it, with the commit that the target has,
-- where an unrefined channel is not named like the escape of a ref.
pub target-admitted :
    (path_match : Str → Str → Option Bool) (kind : SelectorKind) (selector : Str)
    (snap : RefSnapshot) (a : Available)
    → (kind ≡ channel → IsPlain selector)
    → target path_match kind selector snap ≡ some a
    → admit path_match kind selector a.ref snap ≡ admitted a
unfolding target pinned_ref
target-admitted path_match channel selector snap a plain h =
    channel_target-admitted path_match selector snap a (plain refl) h
target-admitted path_match ordered_channel selector snap a plain h =
    ordered_target-admitted path_match selector snap a h
target-admitted path_match constraint selector snap a plain h =
    constraint_target-admitted path_match selector snap a h
target-admitted path_match commit_pin selector snap a plain h =
    commit_target-admitted path_match selector snap a h
target-admitted path_match (unknown s) selector snap a plain h = cc
target-admitted path_match pin selector snap a plain h =
    unfold ref_commit admits is_commit_pin in
    pinned_target-admitted path_match selector snap a pin refl (λ r. refl) (λ r v. refl) h
target-admitted path_match tag_pin selector snap a plain h =
    unfold ref_commit admits is_commit_pin in
    pinned_target-admitted path_match selector snap a tag_pin refl (λ r. refl) (λ r v. refl) h
target-admitted path_match branch_pin selector snap a plain h =
    unfold ref_commit admits is_commit_pin in
    pinned_target-admitted path_match selector snap a branch_pin refl (λ r. refl) (λ r v. refl) h
target-admitted path_match pointer_channel selector snap a plain h =
    unfold ref_commit admits is_commit_pin in
    pinned_target-admitted path_match selector snap a pointer_channel refl (λ r. refl) (λ r v. refl)
      h
target-admitted path_match branch_channel selector snap a plain h =
    unfold ref_commit admits is_commit_pin in
    pinned_target-admitted path_match selector snap a branch_channel refl (λ r. refl) (λ r v. refl)
      h
