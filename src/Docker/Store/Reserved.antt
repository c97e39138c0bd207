-- ===== src/Docker/Store/Reserved.antt =====
-- docker-operator/internal/store/store.go: the count of the agents that hold a slot.
use ai_sandbox.Base.{Bool, [], ◌∷◌, inr, ◌≡◌, refl}
use ai_sandbox.Base.Dict.{Dict, count}
use ai_sandbox.Docker.Bolt.{Bucket, Json}
use ai_sandbox.Docker.Records.Holds.{Holds, decode-inr}
use ai_sandbox.Docker.Store.{keyed_agent, Agent, counts_toward_capacity, count_reserved}

abbrev pub reserved : Agent → Bool
reserved a = counts_toward_capacity a.status

module _ ⦃json : Json Agent⦄ where
  pub count_reserved-count :
      (b : Bucket) (r : Dict Agent) → Holds b r → count_reserved b ≡ inr (count reserved r)
  unfolding count_reserved
  count_reserved-count [] [] h = refl
  count_reserved-count [] (_ ∷ _) h = absurd h
  count_reserved-count (_ ∷ _) [] h = absurd h
  count_reserved-count ((i, raw) ∷ b) ((j, a) ∷ r) h =
      rw (count_reserved, decode-inr raw a h.2, count_reserved-count b r h.3) refl
