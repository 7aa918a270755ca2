-- ===== src/Shell/Puts.antt =====
-- What the line of a put sends.
use distributed_storage_with.Base.{
  ℕ, ◌≡◌, ◌≢◌, refl, ap, ◌∙◌, Bool, true, Bool-cases, inl, inr, List, [], ◌∷◌, ◌++◌, some,
  if◌then◌else◌, Text, text_eq, text_eq_iff, codes, HashOrder, All,
}
use distributed_storage_with.Network.{Network}
use distributed_storage_with.Tokens.Words.{IsWord, unwords, unwords_joined, split_spaces-unwords}
use distributed_storage_with.Shell.{
  Shell, join_tokens, put_value, delete_key, put_command, obey, obey_tokens, obey_line, tells,
  not_connected,
}

join_tokens-unwords : (v : Text) (ws : List Text) → join_tokens v ws ≡ unwords v ws
unfolding join_tokens unwords
join_tokens-unwords v [] = refl
join_tokens-unwords v (w ∷ ws) =
    join_tokens-unwords ((v ++ b' ' ∷ []) ++ w) ws ∙ unwords_joined v w ws

module _ (hash : Text → ℕ) (order : HashOrder) (network : Network)
    (unknown_host : Text → Bool) where
  put_command_lem :
      (fuel : ℕ) (key v : Text) (ws : List Text) (s : Shell) (w : network.World)
      → unwords v ws ≢ codes "null"
      → put_command hash order network unknown_host fuel (key ∷ v ∷ ws) (s, w)
        ≡ put_value hash order network unknown_host fuel key (unwords v ws) (s, w)
  unfolding put_command unwords
  put_command_lem fuel key v [] s w other = elim (Bool-cases (text_eq v (codes "null"))) [
    | inl same ↦ absurd (other ((text_eq_iff v (codes "null")).0 same))
    | inr differs ↦
        ap
          (λ b.
            if b
            then delete_key hash order network unknown_host fuel key (s, w)
            else put_value hash order network unknown_host fuel key v (s, w))
          differs
  ]
  put_command_lem fuel key v (x ∷ xs) s w other =
      ap (λ l. put_value hash order network unknown_host fuel key l (s, w))
        (join_tokens-unwords v (x ∷ xs))

  -- A line of words, with one space between two, of which the first is put: if the client is connected,
  -- and the words behind the key are not just null, the store's put is called with these words, as
  -- they stand in the line, and the reply tells its status.
  pub obey_line_put :
      (fuel : ℕ) (key v : Text) (ws : List Text) (s : Shell) (w : network.World)
      → All IsWord (key ∷ v ∷ ws)
      → unwords v ws ≢ codes "null"
      → s.running ≡ true
      → obey_line hash order network unknown_host fuel
          (some (unwords (codes "put") (key ∷ v ∷ ws)))
          (s, w)
        ≡ put_value hash order network unknown_host fuel key (unwords v ws) (s, w)
  unfolding obey_line obey_tokens obey unwords
  obey_line_put fuel key v ws s w words other running =
      ap (λ l. obey_tokens hash order network unknown_host fuel l (s, w))
        (split_spaces-unwords (codes "put") (key ∷ v ∷ ws) ((refl, (refl, (refl, tt))), words))
      ∙ ap
          (λ b.
            if b
            then put_command hash order network unknown_host fuel (key ∷ v ∷ ws) (s, w)
            else some (tells hash order network unknown_host not_connected (s, w)))
          running
      ∙ put_command_lem fuel key v ws s w other
