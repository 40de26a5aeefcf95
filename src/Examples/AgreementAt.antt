-- ===== src/Examples/AgreementAt.antt =====
-- The pool and the miner together, at concrete inputs.
use monetarium_stratum.Prelude.{
  ℕ, ◌∷◌, ◌++◌, [], ◌≡◌, ◌≢◌, inl, refl, ap, ◌∙◌, true, none, some, map, arith, take, ok, ◌>>=◌,
  or_fail, replicate,
}
use monetarium_stratum.Bytes.Text.{codes}
use monetarium_stratum.Bytes.Endian.{le_bytes}
use monetarium_stratum.Mining.Chain.{max_block_header_payload}
use monetarium_stratum.Mining.Evaluate.{Decision, rejected, share_target}
use monetarium_stratum.Mining.Work.{timestamp, apply_submission}
use monetarium_stratum.Stratum.Protocol.{
  str, method_submit, parse_request, notification, new_set_difficulty,
}
use monetarium_stratum.Stratum.Server.{Client, Server, find_client, find_in, work_notification}
use monetarium_stratum.Stratum.Client.{handle_message, handle_subscribe, judge}
use monetarium_stratum.Miner.Job.{to_target_bytes, classify_solution}
use monetarium_stratum.Miner.Job.Compare.{flags}
use monetarium_stratum.Miner.Search.{place_nonces}
use monetarium_stratum.Miner.Session.{
  connect_and_mine, run_turns, Sent, submit_share, send_request, handle_notify, handle_notification,
  division_by_zero,
}
use monetarium_stratum.Agreement.Header.{job_header, rebuilt-place_nonces}
use monetarium_stratum.Agreement.Verdict.{handle_notify-work}
use monetarium_stratum.Agreement.Accepted.{validated_of}
use monetarium_stratum.Agreement.Requests.{sent_line, parse_request-send_request}
use monetarium_stratum.Agreement.Submitted.{submitted_share_accepted}
use monetarium_stratum.Agreement.Disjoint.{hashed_header_inj}
use monetarium_stratum.Agreement.Greeting.{
  delivered, greeting, handle_notification-new_set_difficulty, find_client-handle_subscribe,
}
use monetarium_stratum.Agreement.Handshake.{welcomed}
use monetarium_stratum.Agreement.Connected.{
  subscribe_request, authorize_request, connect_and_mine-handle_message,
}
use monetarium_stratum.Examples.Base.{
  toy_chain, toy_chain-IsWireFormat, toy_chain-IsProofOfWork, toy_hash, toy_work, toy_work-IsBlob,
  toy_client, toy_server, toy_node, toy_miner,
}
use monetarium_stratum.Examples.Pair.{
  e1, e1_bytes, hundred_be, five_be, hundred_fits, five_fits, bits_are_five, toy_job, fifty,
  fifty-IsShare, job_is_found,
}

named : toy_miner.user ≢ []
named e = cc

submitted_share_accepted_example :
    (r : Sent) × (d : Decision) × ((submit_share toy_job fifty.extra_nonce2 50 toy_miner).sent
      ≡ r ∷ [])
    × (handle_message toy_chain toy_node 1 (some (sent_line r)) toy_server
        ≡ judge toy_chain toy_node 1 r.id (validated_of toy_work e1 fifty) toy_server d)
    × (d ≢ rejected)
    × (flags d
        ≡ classify_solution
            (toy_hash
              (place_nonces (job_header toy_work toy_work-IsBlob e1 refl) fifty.extra_nonce2 50))
            hundred_be
            five_be)
unfolding share_target find_client find_in
submitted_share_accepted_example =
    submitted_share_accepted toy_chain toy_hash toy_chain-IsWireFormat toy_chain-IsProofOfWork
      toy_work toy_work-IsBlob e1 refl e1_bytes 100 5 hundred_be five_be hundred_fits five_fits
      bits_are_five toy_miner fifty 1 toy_client toy_server toy_node fifty-IsShare refl refl refl
      refl job_is_found refl

parse_request-send_request_example :
    (r : Sent) × (id : ℕ) × (send_request method_submit (str (codes "w") ∷ []) toy_miner
      ≡ (record toy_miner { next_id = id; sent = r ∷ [] }, some id))
    × (parse_request (some (sent_line r))
        ≡ some (record { id = id; method = method_submit; params = str (codes "w") ∷ [] }))
parse_request-send_request_example =
    parse_request-send_request toy_miner method_submit (str (codes "w") ∷ []) refl refl

rebuilt-place_nonces_example :
    take max_block_header_payload
      (apply_submission toy_work e1 (replicate 8 0) (timestamp toy_work) (le_bytes 4 50))
    ≡ place_nonces (job_header toy_work toy_work-IsBlob e1 refl) (replicate 8 0) 50
rebuilt-place_nonces_example =
    rebuilt-place_nonces toy_work toy_work-IsBlob e1 refl (replicate 8 0) 50 refl

handle_notify-work_example :
    handle_notify toy_chain (work_notification toy_work true).params toy_miner
    ≡ ok (record toy_miner { gen = 1; current_job = some toy_job })
handle_notify-work_example =
    handle_notify-work toy_chain toy_work toy_work-IsBlob e1 refl e1_bytes 100 hundred_be five_be
      hundred_fits (ap to_target_bytes bits_are_five ∙ five_fits) toy_miner true refl refl

hashed_header_inj_example :
    (e1 ≡ e1) × (fifty.extra_nonce2 ≡ fifty.extra_nonce2) × (fifty.nonce ≡ 50)
hashed_header_inj_example =
    hashed_header_inj toy_work toy_work toy_work-IsBlob toy_work-IsBlob e1 e1 refl refl
      fifty.extra_nonce2 fifty.extra_nonce2 fifty.nonce 50 refl refl (omega arith) (omega arith)
      refl

handle_notification-new_set_difficulty_example :
    handle_notification toy_chain (delivered (notification (new_set_difficulty 20))) toy_miner ≡ (
      or_fail (share_target toy_chain 20) division_by_zero >>= λ t.
      ok (record toy_miner { target = some t }))
handle_notification-new_set_difficulty_example =
    handle_notification-new_set_difficulty toy_chain 20 toy_miner

find_client-handle_subscribe_example :
    find_client 1 (handle_subscribe 9 toy_client toy_server)
    ≡ some (record toy_client { sends = greeting 9 toy_client toy_server toy_work })
unfolding find_client find_in
find_client-handle_subscribe_example =
    find_client-handle_subscribe 9 toy_client toy_server toy_work refl refl

connect_and_mine-handle_message_example :
    (s1 : Server) × (s2 : Server) × (k' : Client) × (handle_message toy_chain toy_node 1
        (some (sent_line (subscribe_request toy_miner)))
        toy_server
      ≡ ok s1)
    × (handle_message toy_chain toy_node 1 (some (sent_line (authorize_request toy_miner))) s1
        ≡ ok s2)
    × (find_client 1 s2 ≡ some k')
    × (connect_and_mine toy_chain [] (map delivered k'.sends ++ []) toy_miner
        ≡ ok (
          welcomed toy_chain toy_work toy_work-IsBlob e1 refl e1_bytes 100 hundred_be five_be
              hundred_fits
              (ap to_target_bytes bits_are_five ∙ five_fits)
              toy_miner
              toy_client,
          none,
        ))
unfolding share_target run_turns find_client find_in
connect_and_mine-handle_message_example =
    connect_and_mine-handle_message toy_chain toy_node toy_node toy_work toy_work-IsBlob e1 refl
      e1_bytes 100 hundred_be five_be hundred_fits (ap to_target_bytes bits_are_five ∙ five_fits) []
      [] toy_miner toy_client toy_server refl refl refl refl (named, inl refl) refl
