-- ===== src/Tests/Kinds.antt =====
-- Tests of the functions that create kinds, with a server that counts down to the established kind.
use kube_arbitrator.Common.{
  ℕ, zero, suc, ◌≡◌, ◌⊎◌, refl, subst, [], ◌∷◌, Option, none, some, String, inl, inr, text_same,
}
use kube_arbitrator.Client.Kinds.{
  Definition, established, names_accepted, condition_true, condition_false, Answer, finished,
  unfinished, broken, Polled, ready, gave_up, timed_out, waited, Server, unless_exists,
  scheduling_spec_definition, create_queue_job_kind, create_scheduling_spec_kind,
}
use kube_arbitrator.Client.Kinds.Laws.{Ended, create_kind-Ended}

abbrev follow_up :
    {St : Type 0} → (St → St × Option String) → St × Answer String → St × Option String
follow_up go (t, finished) = (t, none)
follow_up go (t, broken e) = (t, some e)
follow_up go (t, unfinished) = go t

abbrev tries : {St : Type 0} → ℕ → (St → St × Answer String) → St → St × Option String
tries zero ask s = (s, some "timed out")
tries (suc n) ask s = follow_up (tries n ask) (ask s)

follow_up_lem :
    {St : Type 0} (ask : St → St × Answer String) (go : St → St × Option String) (s : St)
    (r : St × Answer String) (t : St) (e : Option String)
    → ask s ≡ r
    → ((m : St) → go m ≡ (t, e) → Polled ask "timed out" m t e)
    → follow_up go r ≡ (t, e)
    → Polled ask "timed out" s t e
follow_up_lem ask go s (m, finished) t e at rest h =
    subst (λ p. Polled ask "timed out" s p.0 p.1) h (ready s m at)
follow_up_lem ask go s (m, broken err) t e at rest h =
    subst (λ p. Polled ask "timed out" s p.0 p.1) h (gave_up s m err at)
follow_up_lem ask go s (m, unfinished) t e at rest h = waited s m t e at (rest m h)

tries_lem :
    {St : Type 0} (n : ℕ) (ask : St → St × Answer String) (s t : St) (e : Option String)
    → tries n ask s ≡ (t, e)
    → Polled ask "timed out" s t e
tries_lem zero ask s t e h = subst (λ p. Polled ask "timed out" s p.0 p.1) h (timed_out s)
tries_lem (suc n) ask s t e h =
    follow_up_lem ask (tries n ask) s (ask s) t e refl (λ m k. tries_lem n ask m t e k) h

abbrev answer_at : ℕ → Definition
answer_at zero = record scheduling_spec_definition {
  conditions =
      record { type = names_accepted; status = condition_true }
      ∷ record { type = established; status = condition_true }
      ∷ [];
}
answer_at (suc n) = record scheduling_spec_definition {
  conditions = record { type = established; status = condition_false } ∷ [];
}

abbrev get_at : ℕ → ℕ × (String ⊎ Definition)
get_at zero = (zero, inr (answer_at zero))
get_at (suc n) = (n, inr (answer_at (suc n)))

abbrev counting : Server ℕ String
counting = record {
  create = λ crd s. (s, none);
  get = λ name s. get_at s;
  delete = λ name s. (100, none);
  aggregate = λ e d. e;
  is_already_exists = λ e. text_same e "exists";
  timeout = "timed out";
  poll = λ ask s. tries 3 ask s;
  poll_lem = λ ask s t e h. tries_lem 3 ask s t e h;
}

in_time : create_scheduling_spec_kind counting 2 ≡ (0, inr (answer_at 0))
unfolding create_scheduling_spec_kind
in_time = refl

too_late : create_scheduling_spec_kind counting 5 ≡ (100, inl "timed out")
unfolding create_scheduling_spec_kind
too_late = refl

too_late_queue_job : create_queue_job_kind counting 5 ≡ (100, inl "timed out")
unfolding create_queue_job_kind
too_late_queue_job = refl

exists_already : unless_exists counting (3, inl "exists") ≡ (3, none)
unfolding unless_exists
exists_already = refl

create_kind-Ended_example : Ended counting scheduling_spec_definition 2 0 (inr (answer_at 0))
unfolding create_scheduling_spec_kind
create_kind-Ended_example =
    create_kind-Ended counting scheduling_spec_definition 2 0 (inr (answer_at 0)) in_time
