-- ===== src/Db/Timestamps.antt =====
-- db/timestamps.rs: instants by their labels.
use tpn_worker.Base.{ℤ, Text, eq_text, List, [], ◌∷◌, Option, none, some, if◌then◌else◌}
use tpn_worker.Error.{ok, err}
use tpn_worker.World.{World, Env, Timestamp, M, ◌>>=◌, now_ms, fetch, execute}

unfoldable pub find_label : Text → List Timestamp → Option ℤ
find_label l [] = none
find_label l (t ∷ ts) = if eq_text t.label l then some t.timestamp else find_label l ts

-- INSERT … ON CONFLICT (label) DO UPDATE
unfoldable pub put_label : Text → ℤ → ℤ → List Timestamp → List Timestamp
put_label l v now [] = record { label = l; timestamp = v; updated = now } ∷ []
put_label l v now (t ∷ ts) =
    if eq_text t.label l
    then record { label = t.label; timestamp = v; updated = now } ∷ ts
    else t ∷ put_label l v now ts

module _ (env : Env) where
  -- `none` also where the query fails.
  unfoldable pub get_timestamp : Text → World → Option ℤ × World
  get_timestamp l w =
      let (r, w') = fetch env (λ w. find_label l w.timestamps) w in
      elim r [ ok found ↦ (found, w') | err e ↦ (none, w') ]

  unfoldable pub set_timestamp : Text → ℤ → M (Unit {0})
  set_timestamp l v = do
    now ← now_ms env
    execute env (λ w. record w { timestamps = put_label l v now w.timestamps })
