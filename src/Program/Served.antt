-- ===== src/Program/Served.antt =====
-- What the program has done after a number of steps: the work taken and the work that waits.
use mathlib.Core.List.{append-nil}
use monetarium_stratum.Prelude.{
  ℕ, suc, ◌≤◌, ◌≡◌, ◌⊎◌, refl, sym, ◌∙◌, subst, Bool, Option, some, List, [], ◌∷◌, ◌++◌, arith,
  length, Result, ok, err,
}
use monetarium_stratum.Bytes.Slice.{Bytes}
use monetarium_stratum.Mining.Chain.{Chain}
use monetarium_stratum.Mining.Work.{Work}
use monetarium_stratum.Mining.Manager.{WorkManager, set_current}
use monetarium_stratum.Stratum.Protocol.{Json}
use monetarium_stratum.Stratum.Server.{Server, Node, new_server, connect, remove_client, send_work}
use monetarium_stratum.Stratum.Client.{handle_message}
use monetarium_stratum.Stratum.Reachable.{
  IsReachable, started, connected, disconnected, got_message, installed, sent_work,
}
use monetarium_stratum.Node.Client.{WorkEvent, work_event_buffer, block_buffer}
use monetarium_stratum.Program.Loop.{
  Pool, Halt, waits, PoolStep, delivers, connects_block, drops, takes_work, tells, takes_block,
  ticks, signals, ends, joins, leaves, requests,
}

-- The work that a schedule delivers.
abbrev pub delivered : List PoolStep → List WorkEvent
delivered [] = []
delivered (delivers blob reason ∷ es) = record { data_blob = blob; reason = reason } ∷ delivered es
delivered (e ∷ es) = delivered es

pub delivered_cons :
    (e : PoolStep) (es : List PoolStep) → delivered (e ∷ es) ≡ delivered (e ∷ []) ++ delivered es
delivered_cons (delivers blob reason) es = refl
delivered_cons connects_block es = refl
delivered_cons drops es = refl
delivered_cons takes_work es = refl
delivered_cons tells es = refl
delivered_cons takes_block es = refl
delivered_cons ticks es = refl
delivered_cons signals es = refl
delivered_cons ends es = refl
delivered_cons joins es = refl
delivered_cons (leaves id) es = refl
delivered_cons (requests node id line) es = refl

module _ (c : Chain) (share_difficulty divisor : ℕ) (password : Bytes) (max_clients : ℕ) where
  -- A server for which a list of work was taken, in its order, between its sends of work and the
  -- steps of its clients.
  pub data IsServed : ℕ → List WorkEvent → Server → Type 0 where
    fresh : IsServed 0 [] (new_server share_difficulty divisor password max_clients)
    joined :
        (n : ℕ) (works : List WorkEvent) (s : Server)
        → IsServed n works s
        → IsServed (suc n) works (connect s)
    left :
        (n id : ℕ) (works : List WorkEvent) (s : Server)
        → IsServed n works s
        → IsServed (suc n) works (remove_client id s)
    requested :
        (n id : ℕ) (node : Node) (line : Option Json) (works : List WorkEvent) (s s' : Server)
        → IsServed n works s
        → handle_message c node id line s ≡ ok s'
        → IsServed (suc n) works s'
    taken :
        (n : ℕ) (w : WorkEvent) (works : List WorkEvent) (s : Server)
        (r : WorkManager × Option Work × Bool)
        → IsServed n works s
        → set_current s.work_mgr w.data_blob w.reason ≡ some r
        → IsServed (suc n) (works ++ w ∷ []) (record s { work_mgr = r.0 })
    told :
        (n id : ℕ) (w : Work) (clean : Bool) (works : List WorkEvent) (s : Server)
        → IsServed n works s
        → IsServed (suc n) works (send_work id w clean s)

  pub IsServed-IsReachable :
      (n : ℕ) (works : List WorkEvent) (s : Server)
      → IsServed n works s
      → IsReachable c share_difficulty divisor password max_clients n s
  IsServed-IsReachable _ _ _ fresh = started
  IsServed-IsReachable _ _ _ (joined n works s h) = connected n s (IsServed-IsReachable n works s h)
  IsServed-IsReachable _ _ _ (left n id works s h) =
      disconnected n id s (IsServed-IsReachable n works s h)
  IsServed-IsReachable _ _ _ (requested n id node line works s s' h e) =
      got_message n id node line s s' (IsServed-IsReachable n works s h) e
  IsServed-IsReachable _ _ _ (taken n w works s r h e) =
      installed n w.data_blob w.reason s r (IsServed-IsReachable n works s h) e
  IsServed-IsReachable _ _ _ (told n id w clean works s h) =
      sent_work n id w clean s (IsServed-IsReachable n works s h)

  -- The program after at most `n` steps, to which `log` was delivered: what was taken for the
  -- server and what waits in the channel are together the log, in its order, and the channels are within their
  -- bounds.
  pub record Runs (n : ℕ) (log : List WorkEvent) (p : Pool) : Type 0 where
    pub steps : ℕ
    pub works : List WorkEvent
    pub in_time : steps ≤ n
    pub served : IsServed steps works p.server
    pub in_order : works ++ p.node.work ≡ log
    pub few : length p.node.work ≤ work_event_buffer
    pub few_blocks : p.node.blocks ≤ block_buffer

  abbrev pub Goes : ℕ → List WorkEvent → Result Halt Pool → Type 0
  Goes n log r = (r ≡ err waits) ⊎ ((p : Pool) × (r ≡ ok p) × Runs n log p)

  -- A step that leaves the server and the channel of work alone.
  pub keeps :
      (n : ℕ) (log : List WorkEvent) (p p' : Pool)
      → p'.server ≡ p.server
      → p'.node.work ≡ p.node.work
      → p'.node.blocks ≤ block_buffer
      → Runs n log p
      → Runs (suc n) (log ++ []) p'
  keeps n log p p' same_server same_work few_blocks r = record {
    steps = r.steps;
    works = r.works;
    in_time = omega (arith, r.in_time);
    served = subst (IsServed r.steps r.works) (sym same_server) r.served;
    in_order = rw same_work (r.in_order ∙ sym (append-nil log));
    few = rw same_work r.few;
    few_blocks = few_blocks;
  }
