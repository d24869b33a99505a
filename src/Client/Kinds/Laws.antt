-- ===== src/Client/Kinds/Laws.antt =====
-- What the functions that create a kind return, and what they leave on the server.
use kube_arbitrator.Common.{
  ◌≡◌, ◌⊎◌, refl, sym, ap, ◌∙◌, subst, inl, inr, true, Option, none, some, String, Bool-cases,
}
use kube_arbitrator.Client.Kinds.{
  Definition, finished, Polled, ready, gave_up, timed_out, waited, Server, is_established, answer,
  ask, clean_up, after_wait, after_create, create_kind,
}

module _ {S Err : Type 0} (server : Server S Err) where
  -- The server has just answered that the kind is established, with this definition.
  abbrev pub Confirmed : String → S → Definition → Type 0
  Confirmed name t crd =
      (m : S) × (server.get name m ≡ (t, inr crd)) × (is_established crd.conditions ≡ true)

  answered :
      (name : String) (m : S) (old : Definition) (r : S × (Err ⊎ Definition)) (t : S)
      (crd : Definition)
      → server.get name m ≡ r
      → answer server (m, old) r ≡ ((t, crd), finished)
      → Confirmed name t crd
  unfolding answer
  answered name m old (u, inl err) t crd at h = cc
  answered name m old (u, inr got) t crd at h = elim (Bool-cases (is_established got.conditions)) [
    | inl e ↦
        let same : ◌≡◌ {A = S × Definition} (u, got) (t, crd) = ap (λ r. r.0) h in
        (
          m,
          at ∙ ap (λ (p : S × Definition). (p.0, inr p.1)) same,
          subst (λ (d : Definition). is_established d.conditions ≡ true) (ap (λ p. p.1) same) e,
        )
    | inr e ↦ cc
  ]

  Polled-Confirmed :
      (name : String) (s t : S × Definition) (e : Option Err)
      → Polled (ask server name) server.timeout s t e
      → e ≡ none
      → Confirmed name t.0 t.1
  unfolding ask
  Polled-Confirmed name s t e (ready (m, old) (u, crd) h) none_eq =
      answered name m old (server.get name m) u crd refl h
  Polled-Confirmed name s t e (gave_up a b err h) none_eq = cc
  Polled-Confirmed name s t e (timed_out a) none_eq = cc
  Polled-Confirmed name s t e (waited a m b o h rest) none_eq =
      Polled-Confirmed name m b o rest none_eq

  -- The wait failed with `err`, and the definition was deleted again in the server's state `u`.
  abbrev pub Deleted : String → S → S → Err → Err → Type 0
  Deleted name u v err reported =
      (d : Option Err) × (server.delete name u ≡ (v, d))
      × (reported ≡ (elim d [ none ↦ err | some e ↦ server.aggregate err e ]))

  cleaned :
      (name : String) (u v : S) (err : Err) (r : Err ⊎ Definition) (d : S × Option Err)
      → server.delete name u ≡ d
      → clean_up server err d ≡ (v, r)
      → (reported : Err) × (r ≡ inl reported) × Deleted name u v err reported
  unfolding clean_up
  cleaned name u v err r (w, none) at h =
      (err, sym (ap (λ p. p.1) h), (none, at ∙ ap (λ p. (p.0, none)) h, refl))
  cleaned name u v err r (w, some e) at h = (
    server.aggregate err e,
    sym (ap (λ p. p.1) h),
    (some e, at ∙ ap (λ p. (p.0, some e)) h, refl),
  )

  -- How the wait ends that starts in the server's state `t`, where the kind was created.
  abbrev pub EndedWait : Definition → S → S → Err ⊎ Definition → Type 0
  EndedWait crd t v r =
      ((got : Definition) × (server.poll (ask server crd.name) (t, crd) ≡ ((v, got), none))
        × (r ≡ inr got)
        × Confirmed crd.name v got)
      ⊎ ((u : S) × (got : Definition) × (err : Err) × (reported : Err) × (server.poll
              (ask server crd.name) (t, crd)
            ≡ ((u, got), some err))
          × (r ≡ inl reported)
          × Deleted crd.name u v err reported)

  -- How `CreateQueueJobKind` and `CreateSchedulingSpecKind` end.
  abbrev pub Ended : Definition → S → S → Err ⊎ Definition → Type 0
  Ended crd s v r =
      ((err : Err) × (server.create crd s ≡ (v, some err)) × (r ≡ inl err))
      ⊎ ((t : S) × (server.create crd s ≡ (t, none)) × EndedWait crd t v r)

  waited_for :
      (crd : Definition) (t v : S) (r : Err ⊎ Definition) (p : (S × Definition) × Option Err)
      → server.poll (ask server crd.name) (t, crd) ≡ p
      → after_wait server crd.name p ≡ (v, r)
      → EndedWait crd t v r
  unfolding after_wait
  waited_for crd t v r ((u, got), none) at h = inl (
    got,
    at ∙ ap (λ p. ((p.0, got), none)) h,
    sym (ap (λ p. p.1) h),
    subst (λ x. Confirmed crd.name x got) (ap (λ p. p.0) h)
        (Polled-Confirmed crd.name (t, crd) (u, got) none
          (server.poll_lem (ask server crd.name) (t, crd) (u, got) none at) refl),
  )
  waited_for crd t v r ((u, got), some err) at h =
      let (reported, e, deleted) = cleaned crd.name u v err r (server.delete crd.name u) refl h in
      inr (u, got, err, reported, at, e, deleted)

  created :
      (crd : Definition) (s v : S) (r : Err ⊎ Definition) (c : S × Option Err)
      → server.create crd s ≡ c
      → after_create server crd c ≡ (v, r)
      → Ended crd s v r
  unfolding after_create
  created crd s v r (t, some err) at h =
      inl (err, at ∙ ap (λ p. (p.0, some err)) h, sym (ap (λ p. p.1) h))
  created crd s v r (t, none) at h =
      inr (t, at, waited_for crd t v r (server.poll (ask server crd.name) (t, crd)) refl h)

  -- A function that creates a kind ends in one of three ways: the creation failed, nothing was done after
  -- it, and its error is returned; or the creation succeeded, the wait after it ended without an error, and the
  -- definition that is returned is the server's last answer and says that the kind is established;
  -- or the creation succeeded, the wait after it ended with an error, the definition was deleted again as the last call,
  -- and that error of the wait is returned, with that of the deletion if it failed too.
  pub create_kind-Ended :
      (crd : Definition) (s v : S) (r : Err ⊎ Definition)
      → create_kind server crd s ≡ (v, r)
      → Ended crd s v r
  unfolding create_kind
  create_kind-Ended crd s v r h = created crd s v r (server.create crd s) refl h
