-- ===== src/Batch/Names/Laws.antt =====
-- What alias expansion keeps and what it changes.
use mathlib.Core.Path.{subst}
use xchain_decoder.Prelude.{
  ℕ, ◌≢◌, ◌≡◌, refl, sym, ap, ◌∙◌, ◌⊎◌, inl, inr, Option, none, some, [], ◌∷◌, ◌++◌, ◌==◌, ==_iff,
  All, arith, Bool-cases, drop-length-append,
}
use xchain_decoder.Prelude.Text.{Text, text_eq, text_eq_iff, Free}
use xchain_decoder.Prelude.Maps.{TextMap, get, All-get}
use xchain_decoder.Batch.Names.{
  sub_command_action_name, usable, expand_alias_name, expand_sub_command_alias,
}
use xchain_decoder.Batch.Limits.{action_aliases}

-- Params: empty, or everything from the first '|' on.
pub data IsParams : Text → Type 0 where
  none_given : IsParams []
  given : (cs : Text) → IsParams (b'|' ∷ cs)

-- A command is its name and its params, in one way.
pub sub_command_action_name_split :
    (command : Text)
    → (params : Text) × (command ≡ sub_command_action_name command ++ params)
      × Free b'|' (sub_command_action_name command)
      × IsParams params
unfolding sub_command_action_name
sub_command_action_name_split [] = ([], refl, tt, none_given)
sub_command_action_name_split (c ∷ cs) = elim (Bool-cases (c == b'|')) [
  | inl bar ↦ (c ∷ cs, rw bar, rw bar tt, rw ((==_iff c b'|').0 bar) (given cs))
  | inr other ↦
      let (params, whole, free, p) = sub_command_action_name_split cs in
      (params, rw other (ap (◌∷◌ c) whole), rw other (other, free), p)
]

pub sub_command_action_name-append :
    (name params : Text)
    → Free b'|' name
    → IsParams params
    → sub_command_action_name (name ++ params) ≡ name
unfolding sub_command_action_name
sub_command_action_name-append [] params h none_given = refl
sub_command_action_name-append [] params h (given cs) = refl
sub_command_action_name-append (c ∷ cs) params h p =
    rw h.0 (ap (◌∷◌ c) (sub_command_action_name-append cs params h.1 p))

-- Expanding a command changes its name alone: every unit from the first '|' on stays.
pub expand_sub_command_alias-append :
    (name params : Text) (aliases : TextMap Text)
    → Free b'|' name
    → IsParams params
    → expand_sub_command_alias (name ++ params) aliases ≡ expand_alias_name name aliases ++ params
unfolding expand_sub_command_alias
expand_sub_command_alias-append [] params aliases h p =
    rw (sub_command_action_name-append [] params h p) (unfold expand_alias_name in refl)
expand_sub_command_alias-append (c ∷ cs) params aliases h p =
    let name = c ∷ cs in
    let canonical = expand_alias_name name aliases in
    rw (sub_command_action_name-append name params h p)
      (elim (Bool-cases (text_eq canonical name)) [
        | inl same ↦ rw (same, (text_eq_iff canonical name).0 same)
        | inr other ↦ rw (other, drop-length-append cs params)
      ])

usable_cases : (o : Option Text) (name : Text) → (usable o name ≡ name) ⊎ (o ≡ some (usable o name))
usable_cases none name = inl refl
usable_cases (some []) name = inl refl
usable_cases (some (c ∷ cs)) name = inr refl

-- A name stays, or the table holds what it becomes.
pub expand_alias_name_cases :
    (name : Text) (aliases : TextMap Text)
    → (expand_alias_name name aliases ≡ name)
      ⊎ (get name aliases ≡ some (expand_alias_name name aliases))
unfolding expand_alias_name
expand_alias_name_cases [] aliases = inl refl
expand_alias_name_cases (c ∷ cs) aliases = usable_cases (get (c ∷ cs) aliases) (c ∷ cs)

-- A table is canonical if no value of it is a name that it rewrites.
abbrev pub IsCanonical : TextMap Text → Type 0
IsCanonical aliases = All (λ e. expand_alias_name e.1 aliases ≡ e.1) aliases

pub expand_alias_name_idem :
    (aliases : TextMap Text) (name : Text)
    → IsCanonical aliases
    → expand_alias_name (expand_alias_name name aliases) aliases ≡ expand_alias_name name aliases
expand_alias_name_idem aliases name h = elim (expand_alias_name_cases name aliases) [
  | inl same ↦ ap (λ n. expand_alias_name n aliases) same
  | inr found ↦ All-get (λ v. expand_alias_name v aliases ≡ v) name aliases h found
]

pub action_aliases-IsCanonical : IsCanonical action_aliases
unfolding expand_alias_name get text_eq
action_aliases-IsCanonical = (refl, (refl, (refl, (refl, (refl, tt)))))

abbrev pub AreFree : TextMap Text → Type 0
AreFree aliases = All (λ e. Free b'|' e.1) aliases

pub action_aliases-AreFree : AreFree action_aliases
action_aliases-AreFree = ground arith

pub expand_alias_name-Free :
    (aliases : TextMap Text) (name : Text)
    → AreFree aliases
    → Free b'|' name
    → Free b'|' (expand_alias_name name aliases)
expand_alias_name-Free aliases name h free = elim (expand_alias_name_cases name aliases) [
  | inl same ↦ subst (Free b'|') (sym same) free
  | inr found ↦ All-get (Free b'|') name aliases h found
]

expand_sub_command_alias-split :
    (command params : Text) (aliases : TextMap Text)
    → command ≡ sub_command_action_name command ++ params
    → Free b'|' (sub_command_action_name command)
    → IsParams params
    → expand_sub_command_alias command aliases
      ≡ expand_alias_name (sub_command_action_name command) aliases ++ params
expand_sub_command_alias-split command params aliases whole free p =
    ap (λ c. expand_sub_command_alias c aliases) whole
    ∙ expand_sub_command_alias-append (sub_command_action_name command) params aliases free p

-- The name of an expanded command is the expansion of its name.
pub sub_command_action_name-expand :
    (command : Text) (aliases : TextMap Text)
    → AreFree aliases
    → sub_command_action_name (expand_sub_command_alias command aliases)
      ≡ expand_alias_name (sub_command_action_name command) aliases
sub_command_action_name-expand command aliases h =
    let (params, whole, free, p) = sub_command_action_name_split command in
    let name = sub_command_action_name command in
    ap sub_command_action_name (expand_sub_command_alias-split command params aliases whole free p)
    ∙ sub_command_action_name-append (expand_alias_name name aliases) params
        (expand_alias_name-Free aliases name h free) p

-- Where no value of the table holds a '|' or is a name that it rewrites, a second expansion changes nothing.
pub expand_sub_command_alias_idem :
    (command : Text) (aliases : TextMap Text)
    → AreFree aliases
    → IsCanonical aliases
    → expand_sub_command_alias (expand_sub_command_alias command aliases) aliases
      ≡ expand_sub_command_alias command aliases
expand_sub_command_alias_idem command aliases h canonical =
    let (params, whole, free, p) = sub_command_action_name_split command in
    let name = sub_command_action_name command in
    let once = expand_sub_command_alias-split command params aliases whole free p in
    ap (λ c. expand_sub_command_alias c aliases) once
    ∙ expand_sub_command_alias-append (expand_alias_name name aliases) params aliases
        (expand_alias_name-Free aliases name h free) p
    ∙ ap (λ n. n ++ params) (expand_alias_name_idem aliases name canonical)
    ∙ sym once

-- What a name becomes: itself if it is empty or the table has no text, or an empty one, for it; else the
-- text of the table.
abbrev pub IsAliasOf : TextMap Text → Text → Text → Type 0
IsAliasOf aliases name canonical =
    ((canonical ≡ name)
      × ((name ≡ []) ⊎ ((get name aliases ≡ none) ⊎ (get name aliases ≡ some []))))
    ⊎ ((name ≢ []) × (canonical ≢ []) × (get name aliases ≡ some canonical))

usable-IsAliasOf :
    (aliases : TextMap Text) (c : ℕ) (cs : Text) (entry : Option Text)
    → get (c ∷ cs) aliases ≡ entry
    → IsAliasOf aliases (c ∷ cs) (usable entry (c ∷ cs))
usable-IsAliasOf aliases c cs none e = inl (refl, inr (inl e))
usable-IsAliasOf aliases c cs (some []) e = inl (refl, inr (inr e))
usable-IsAliasOf aliases c cs (some (x ∷ xs)) e = inr (λ h. cc, λ h. cc, e)

expand_alias_name-IsAliasOf :
    (name : Text) (aliases : TextMap Text) → IsAliasOf aliases name (expand_alias_name name aliases)
unfolding expand_alias_name
expand_alias_name-IsAliasOf [] aliases = inl (refl, inl refl)
expand_alias_name-IsAliasOf (c ∷ cs) aliases =
    usable-IsAliasOf aliases c cs (get (c ∷ cs) aliases) refl

-- Whatever the command and the table are, expansion replaces the name of the command, what stands before its
-- first '|', by what the table makes of it, and leaves the rest as it is.
pub expand_sub_command_alias_exact :
    (command : Text) (aliases : TextMap Text)
    → (name : Text) × (params : Text) × (canonical : Text) × (command ≡ name ++ params)
      × Free b'|' name
      × IsParams params
      × IsAliasOf aliases name canonical
      × (expand_sub_command_alias command aliases ≡ canonical ++ params)
expand_sub_command_alias_exact command aliases =
    let (params, whole, free, p) = sub_command_action_name_split command in
    let name = sub_command_action_name command in
    (
      name,
      params,
      expand_alias_name name aliases,
      whole,
      free,
      p,
      expand_alias_name-IsAliasOf name aliases,
      expand_sub_command_alias-split command params aliases whole free p,
    )
