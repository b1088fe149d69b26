-- ===== src/Server/Forward.antt =====
-- What most handlers of server/services do in their try block: one call of the client, whose answer
-- they reply with.
use wazuh_dashboard_security.Base.{String}
use wazuh_dashboard_security.Json.{Json}
use wazuh_dashboard_security.Server.Client.{
  Host, IsRegular, Target, Reply, succeed, Action, pure, ◌>>=◌, call,
}
use wazuh_dashboard_security.Server.Clusters.{IsDefined}
use wazuh_dashboard_security.Server.Safe.{IsSafe, bind-IsSafe, call-IsSafe, pure-IsSafe}

unfoldable pub forward : Host → Target → String → Json → Action Reply
forward host target method params = do
  response ← call host target method params
  pure (succeed response)

pub forward-IsSafe :
    {host : Host} (regular : IsRegular host) (target : Target) (method : String) (params : Json)
    → IsDefined method
    → IsSafe (forward host target method params)
unfolding forward
forward-IsSafe regular target method params defined =
    bind-IsSafe _ _ (call-IsSafe regular target method params defined)
      (λ response. pure-IsSafe (succeed response))
