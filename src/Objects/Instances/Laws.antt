-- ===== src/Objects/Instances/Laws.antt =====
-- What the instance operations of src/objects/security.cpp and src/objects/server.cpp do to the
-- instances, on every branch.
use ferriot.Prelude.{
  ℕ, ◌+◌, ◌-◌, ◌%◌, ◌^◌, ◌<◌, ◌≡◌, refl, Bool, true, false, Option, none, some, [], ◌∷◌, leb, ◌==◌,
  if◌then◌else◌, arith, inl, inr, Bool-cases, Option-cases,
}
use mathlib.Core.Path.{subst}
use mathlib.Core.Option.{some-injective}
use ferriot.Prelude.Table.{Table, find, put, find-put, find-erase, All, All-put, All-mono, All-find}
use ferriot.Result.{ok, fail, bad_request, not_found}
use ferriot.Objects.Instances.{
  Instances, or_else, is_some, has_instance, get_instance, create_instance, delete_instance,
  add_server, find_by,
}

module _ {V : Type 0} where
  -- Creating an instance is refused exactly when the identifier (the suggested one, or else the
  -- next one) is taken, and then changes no instance. Otherwise it answers with the identifier,
  -- under which there is the default instance, and leaves the others as they were.
  pub get_instance-create_instance :
      (fresh : V) (s : Instances V) (suggested : Option ℕ) (j : ℕ)
      → let new_id = or_else suggested s.next_instance_id in
        let taken = has_instance s new_id in
        let (s', r) = create_instance fresh s suggested in
        (r ≡ (if taken then fail bad_request "Instance already exists" else ok new_id))
        × (get_instance s' j ≡ (
            if taken
            then get_instance s j
            else if new_id == j
            then some fresh
            else get_instance s j))
  unfolding create_instance has_instance get_instance
  get_instance-create_instance fresh s suggested j =
      elim (Bool-cases (is_some (find (or_else suggested s.next_instance_id) s.instances))) [
        | inl taken ↦ rw taken (refl, refl)
        | inr free ↦
            rw free (refl, find-put (or_else suggested s.next_instance_id) j fresh s.instances)
      ]

  -- Deleting an instance is refused exactly when there is none of that identifier; otherwise it
  -- goes, and the others stay.
  pub get_instance-delete_instance :
      (s : Instances V) (iid j : ℕ)
      → let (s', r) = delete_instance s iid in
        (r ≡ (if has_instance s iid then ok tt else fail not_found "Instance not found"))
        × (get_instance s' j ≡ (if iid == j then none else get_instance s j))
  unfolding delete_instance has_instance get_instance
  get_instance-delete_instance s iid j = ground (arith, find-erase iid j s.instances)

  -- All identifiers are below the next one.
  abbrev pub IsBounded : Instances V → Type 0
  IsBounded s = All (λ k _. k < s.next_instance_id) s.instances

  -- Creating an instance, or trying to, keeps all identifiers below the next one, if the identifier is
  -- below 65535.
  pub create_instance-IsBounded :
      (fresh : V) (s : Instances V) (suggested : Option ℕ)
      → or_else suggested s.next_instance_id < 2 ^ 16 - 1
      → IsBounded s
      → IsBounded (create_instance fresh s suggested).0
  unfolding create_instance
  create_instance-IsBounded fresh s suggested lt h =
      elim (Bool-cases (is_some (find new_id s.instances))) [
        | inl taken ↦ rw taken h
        | inr free ↦ rw free (
            All-put (λ k _. k < next) new_id fresh s.instances (ground arith)
              (All-mono (λ k _. k < s.next_instance_id) (λ k _. k < next) s.instances
                (λ k _ below. ground arith) h))
      ]
    where
      new_id : ℕ
      new_id = or_else suggested s.next_instance_id

      next : ℕ
      next = if leb s.next_instance_id new_id then (new_id + 1) % 2 ^ 16 else s.next_instance_id

  bounded-find-none : (s : Instances V) → IsBounded s → find s.next_instance_id s.instances ≡ none
  bounded-find-none s h = elim (Option-cases (find s.next_instance_id s.instances)) [
    | inl e ↦ e
    | inr (v, e) ↦
        absurd (
          omega
            (arith, All-find (λ k _. k < s.next_instance_id) s.next_instance_id s.instances h e))
  ]

  -- While all identifiers are below the next one, creating an instance with no suggestion succeeds.
  pub create_instance-none :
      (fresh : V) (s : Instances V)
      → IsBounded s
      → (create_instance fresh s none).1 ≡ ok s.next_instance_id
  unfolding create_instance
  create_instance-none fresh s h = rw (bounded-find-none s h)

  -- Once identifier 65535 has been created, and while there is an instance 0, creating an instance
  -- with no suggestion is refused, however many identifiers are free: the next one has wrapped to 0.
  pub create_instance-wraps :
      (fresh : V) (s : Instances V)
      → s.next_instance_id < 2 ^ 16
      → has_instance s (2 ^ 16 - 1) ≡ false
      → has_instance s 0 ≡ true
      → (create_instance fresh (create_instance fresh s (some (2 ^ 16 - 1))).0 none).1
        ≡ fail bad_request "Instance already exists"
  unfolding create_instance has_instance
  create_instance-wraps fresh s lt free taken =
      rw free (ground (arith, find-put (2 ^ 16 - 1) 0 fresh s.instances))

  -- Adding a configured server is creating an instance with no suggestion that then holds the
  -- configuration.
  pub get_instance-add_server :
      (fresh : V) (s : Instances V) (config : V) (j : ℕ)
      → let taken = has_instance s s.next_instance_id in
        let (s', r) = add_server fresh s config in
        (r ≡ (if taken then fail bad_request "Instance already exists" else ok s.next_instance_id))
        × (get_instance s' j ≡ (
            if taken
            then get_instance s j
            else if s.next_instance_id == j
            then some config
            else get_instance s j))
  unfolding add_server has_instance get_instance
  get_instance-add_server fresh s config j =
      elim (Bool-cases (is_some (find s.next_instance_id s.instances))) [
        | inl taken ↦ rw taken (refl, refl)
        | inr free ↦ rw free (
          refl,
          ground (
            arith,
            find-put s.next_instance_id j config (put s.next_instance_id fresh s.instances),
            find-put s.next_instance_id j fresh s.instances,
          ),
        )
      ]

  pub find_by_test :
      (test : V → Bool) (m : Table V) {v : V} → find_by test m ≡ some v → test v ≡ true
  unfolding find_by
  find_by_test test [] h = cc
  find_by_test test ((k, w) ∷ m) {v} h = elim (Bool-cases (test w)) [
    | inl passes ↦ subst (λ x. test x ≡ true) (some-injective w v (rw passes at h)) passes
    | inr fails ↦ find_by_test test m (rw fails at h)
  ]

  pub find_by-none :
      (test : V → Bool) (m : Table V) → find_by test m ≡ none → All (λ _ v. test v ≡ false) m
  unfolding find_by
  find_by-none test [] h = tt
  find_by-none test ((k, w) ∷ m) h = elim (Bool-cases (test w)) [
    | inl passes ↦ cc (rw passes at h)
    | inr fails ↦ (fails, find_by-none test m (rw fails at h))
  ]
