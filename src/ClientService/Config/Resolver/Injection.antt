-- ===== src/ClientService/Config/Resolver/Injection.antt =====
-- A value of an agent's environment that holds a line feed: the structured entries are written as
-- text and read back, line by line.
use agentspace.Common.{
  ◌≡◌, refl, sym, ap, ◌∙◌, ◌≢◌, none, some, List, [], ◌∷◌, ◌++◌, append_assoc, ◌==◌, nat_eq,
  list_eq, option_eq, ok, look_up, put, look_up-put_same, look_up-put_other, Bytes, Lacks, split,
  join, split-append_sep, split-Lacks_self,
}
use agentspace.ClientService.Models.{Env, parse_env_line, parse_env_lines, parse_env_vars, put_if}
use agentspace.ClientService.Config.Document.{
  ConfigValue, literal, Agent, ConfigDocument, find, env_to_text,
}
use agentspace.ClientService.Config.Resolver.{
  SecretStore, Missing, resolve_entries, resolve_one, resolve_agent_env,
}

module _ (key value line other w : Bytes) where
  abbrev one_entry : List (Bytes × ConfigValue)
  one_entry = (key, literal (value ++ 10 ∷ line)) ∷ []

  text_lines :
      Lacks 10 (key ++ b'=' ∷ value)
      → Lacks 10 line
      → split 10 (env_to_text (some one_entry) none) ≡ (key ++ b'=' ∷ value) ∷ line ∷ []
  unfolding env_to_text join
  text_lines h k =
      ap (split 10) (sym (append_assoc key (b'=' ∷ value) (10 ∷ line)))
      ∙ (split-append_sep 10 (key ++ b'=' ∷ value) line h
          ∙ ap (λ ps. (key ++ b'=' ∷ value) ∷ ps) (split-Lacks_self 10 line k))

  text_env :
      Lacks 10 (key ++ b'=' ∷ value)
      → Lacks 10 line
      → parse_env_line line ≡ some (other, w)
      → look_up other (parse_env_vars (env_to_text (some one_entry) none)) ≡ some w
  unfolding parse_env_vars parse_env_lines
  text_env h k parsed =
      ap (λ ls. look_up other (parse_env_lines ls [])) (text_lines h k)
      ∙ (ap (λ o. look_up other (put_if o (put_if (parse_env_line (key ++ b'=' ∷ value)) [])))
            parsed
          ∙ look_up-put_same other w (put_if (parse_env_line (key ++ b'=' ∷ value)) []))

-- If the value of an agent's only structured entry holds a line feed, and the line behind it sets
-- another variable, then the resolved environment of the agent holds that variable too, which no
-- entry declares.
pub resolve_agent_env_injects :
    (store : SecretStore) (document : ConfigDocument) (id : Bytes) (agent : Agent)
    (key value line other w : Bytes) (missing : Missing)
    → find (λ (item : Agent). item.id == id) document.spec.agents ≡ some agent
    → agent.env ≡ some ((key, literal (value ++ 10 ∷ line)) ∷ [])
    → agent.env_text ≡ none
    → Lacks 10 (key ++ b'=' ∷ value)
    → Lacks 10 line
    → parse_env_line line ≡ some (other, w)
    → other ≢ key
    → (env : Env) × (resolve_agent_env store document id missing ≡ (ok env, missing))
      × (look_up key env ≡ some (value ++ 10 ∷ line))
      × (look_up other env ≡ some w)
unfolding resolve_agent_env resolve_entries resolve_one
resolve_agent_env_injects store document id agent key value line other w missing found has no_text h
      k parsed apart =
    let base = parse_env_vars (env_to_text (some (one_entry key value line other w)) none) in
    (
      put key (value ++ 10 ∷ line) base,
      rw (found, has, no_text) refl,
      look_up-put_same key (value ++ 10 ∷ line) base,
      look_up-put_other key other (value ++ 10 ∷ line) base apart
          ∙ text_env key value line other w h k parsed,
    )
