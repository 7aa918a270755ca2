-- ===== src/Checks/ShellChecks.antt =====
-- The command line of a client at concrete inputs.
use distributed_storage_with.Base.{
  ℕ, ◌≡◌, refl, true, false, [], ◌∷◌, none, some, codes, ok, text_Eq,
}
use distributed_storage_with.Network.{Network}
use distributed_storage_with.Messages.{put_update}
use distributed_storage_with.Client.{new_client}
use distributed_storage_with.Tokens.Words.{unwords}
use distributed_storage_with.Shell.{Shell, put_value, obey_line, obey_tokens, obey}
use distributed_storage_with.Shell.Puts.{obey_line_put}
use distributed_storage_with.Tokens.{split_spaces, space_pieces, keep_unsplit}
use distributed_storage_with.Checks.Fixtures.{digest, plain_order, host}

-- A network whose machine has every key, and counts its requests.
abbrev counting : Network
counting = record {
  World = ℕ;
  connect = λ host port n. (ok tt, n);
  exchange = λ host port msg n. (
    ok (some (record { status = some put_update; key = none; value = none; metadata = none })),
    n,
  );
  exchange_admin = λ host port msg n. (ok none, n);
}

abbrev shell : Shell
shell = record {
  running = true;
  stopped = false;
  store = some (new_client host 50000);
  subscribed = false;
  subscriber = none;
  server_address = host;
  server_port = 50000;
}

quit_idle :
    obey_line digest plain_order counting
      (λ name. false)
      1
      (some (codes "quit"))
      (record shell { running = false }, 0)
    ≡ some (
      ok (some (codes "Application exit")),
      (record shell { running = false; stopped = true }, 0),
    )
unfolding obey_line obey_tokens obey split_spaces space_pieces keep_unsplit
quit_idle = refl

obey_line_put_example :
    obey_line digest plain_order counting
      (λ name. false)
      2
      (some (unwords (codes "put") (codes "k" ∷ codes "a" ∷ codes "b" ∷ [])))
      (shell, 0)
    ≡ put_value digest plain_order counting
        (λ name. false)
        2
        (codes "k")
        (unwords (codes "a") (codes "b" ∷ []))
        (shell, 0)
unfolding unwords
obey_line_put_example =
    obey_line_put digest plain_order counting (λ name. false) 2 (codes "k") (codes "a")
      (codes "b" ∷ []) shell 0 ((refl, tt), ((refl, tt), ((refl, tt), tt))) (λ e. absurd (cc)) refl
