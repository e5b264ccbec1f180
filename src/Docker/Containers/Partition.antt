-- ===== src/Docker/Containers/Partition.antt =====
-- docker.py: which containers the groups of `_container_groups` hold.
use mathlib.Core.List.Perm
use mathlib.Core.List.{Perm, perm_middle, append_assoc}
use terminal_status_panel.Base.{
  ℕ, sym, subst, inl, inr, Bool, not, ◌&&◌, List, [], ◌∷◌, ◌++◌, append-nil, is_some, filter,
  Bool-cases, Option-cases, if◌then◌else◌,
}
use terminal_status_panel.Docker.{Container}
use terminal_status_panel.Docker.Containers.{
  Key, Listing, no_listing, same_key, add_member, swarm_service_of, is_shown, key_of, add_container,
  container_groups,
}

-- The members of all groups.
abbrev pub members : List (Key × List Container) → List Container
members [] = []
members ((key, cs) ∷ groups) = cs ++ members groups

-- The container is no task of a Swarm service, and the panel shows it.
abbrev pub is_grouped : Container → Bool
is_grouped c = not (is_some (swarm_service_of c)) && is_shown c

members-add_member :
    (key : Key) (c : Container) (groups : List (Key × List Container))
    → Perm (members (add_member key c groups)) (c ∷ members groups)
unfolding add_member
members-add_member key c [] = Perm.refl (c ∷ [])
members-add_member key c ((k, cs) ∷ groups) = elim (Bool-cases (same_key k key)) [
  | inl e ↦ rw e (
      subst (λ xs. Perm xs (c ∷ (cs ++ members groups)))
        (sym (append_assoc cs (c ∷ []) (members groups))) (perm_middle cs (members groups)))
  | inr e ↦ rw e (
      Perm.trans (Perm.append_left cs (members-add_member key c groups))
        (perm_middle cs (members groups)))
]

members-add_container :
    (now : ℕ) (c : Container) (l : Listing)
    → Perm
        (members (add_container now c l).groups)
        (if is_grouped c then c ∷ members l.groups else members l.groups)
unfolding add_container
members-add_container now c l = elim (Option-cases (swarm_service_of c)) [
  | inr (service, e) ↦ rw (e, add_container) (Perm.refl (members l.groups))
  | inl e ↦ elim (Bool-cases (is_shown c)) [
    | inl shown ↦ rw (e, add_container, shown) (members-add_member (key_of c) c l.groups)
    | inr hidden ↦ rw (e, add_container, hidden) (Perm.refl (members l.groups))
  ]
]

members-container_groups :
    (now : ℕ) (containers : List Container) (l : Listing)
    → Perm
        (members (container_groups now containers l).groups)
        (filter is_grouped containers ++ members l.groups)
unfolding container_groups
members-container_groups now [] l = Perm.refl (members l.groups)
members-container_groups now (c ∷ containers) l =
    Perm.trans (members-container_groups now containers (add_container now c l)) (
      Perm.trans (Perm.append_left (filter is_grouped containers) (members-add_container now c l))
        moved)
  where
    moved :
        Perm
          (filter is_grouped containers
            ++ (if is_grouped c then c ∷ members l.groups else members l.groups))
          (filter is_grouped (c ∷ containers) ++ members l.groups)
    moved = elim (Bool-cases (is_grouped c)) [
      | inl e ↦ rw e (perm_middle (filter is_grouped containers) (members l.groups))
      | inr e ↦ rw e (Perm.refl (filter is_grouped containers ++ members l.groups))
    ]

-- The groups together hold the containers that are no Swarm tasks and are shown: each once, and no
-- other.
pub container_groups-perm :
    (now : ℕ) (containers : List Container)
    → Perm
        (members (container_groups now containers no_listing).groups)
        (filter is_grouped containers)
container_groups-perm now containers =
    subst (Perm (members (container_groups now containers no_listing).groups))
      (append-nil (filter is_grouped containers))
      (members-container_groups now containers no_listing)
