-- ===== src/Sql/Laws.antt =====
-- Who may run SQL, and where.
use server_deck_backend.Base.{ℕ, ◌≡◌, refl, sym, ◌∙◌, List, nat_eq, text_eq}
use server_deck_backend.Base.Text.{Text, codes}
use server_deck_backend.Base.Outcome.{ok}
use server_deck_backend.Models.{User}
use server_deck_backend.Auth.Env.{Env}
use server_deck_backend.Auth.CurrentUser.{get_current_user}
use server_deck_backend.Sql.{
  ConnectionParams, AgentParams, AgentResult, agent_data, call_agent, execute_sql,
}

module _ {D : Type 0} (env : Env) (send : Text → Text → AgentParams → AgentResult D) where
  call_agent-run :
      (now : ℕ) (users : List User) (token : Text) (user : User) (server_id action : Text)
      (params : AgentParams)
      → get_current_user env now users token ≡ ok user
      → call_agent env send now users token server_id action params
        ≡ agent_data (send server_id action params)
  unfolding call_agent
  call_agent-run now users token user server_id action params known = rw known refl

  -- Two callers with valid tokens, of whatever tenants and teams, run the same query on the same
  -- server with the same outcome.
  pub execute_sql-any_caller :
      (now now2 : ℕ) (users users2 : List User) (token token2 : Text) (user user2 : User)
      (server_id : Text) (conn : ConnectionParams) (sql : Text)
      → get_current_user env now users token ≡ ok user
      → get_current_user env now2 users2 token2 ≡ ok user2
      → execute_sql env send now2 users2 token2 server_id conn sql
        ≡ execute_sql env send now users token server_id conn sql
  unfolding execute_sql
  execute_sql-any_caller now now2 users users2 token token2 user user2 server_id conn sql known
        known2 =
      call_agent-run now2 users2 token2 user2 server_id (codes "sql.execute") _ known2
      ∙ sym (call_agent-run now users token user server_id (codes "sql.execute") _ known)
