-- ===== src/Server/ThreatIntel.antt =====
-- server/services/ThreatIntelService.ts: every handler of the class.
pub mod Replies
use wazuh_dashboard_security.Base.{Bool, [], ◌∷◌}
use wazuh_dashboard_security.Json.{
  Json, num, object, obj, field, end, opt, spread, omit, assign, set_field, array,
}
use wazuh_dashboard_security.Server.Client.{
  Host, Request, Reply, succeed, Action, pure, get_client, ◌>>=◌, call, get, error_message, handle,
}
use wazuh_dashboard_security.Server.Forward.{forward}
use wazuh_dashboard_security.Server.Client.{each, map_each}

module _ (data_source_enabled : Bool) (host : Host) where
  unfoldable pub add_threat_intel_source : Request → Action Reply
  add_threat_intel_source request =
      handle
        (do
          response ←
              call host (get_client data_source_enabled request)
                "securityAnalytics.addThreatIntelSource" (object (("body", request.body) ∷ []))
          _id ← get host response "_id"
          pure (
              succeed
                (obj (set_field "id" _id (assign end (spread (opt response "source_config")))))))
        (error_message host)

  unfoldable pub update_threat_intel_source : Request → Action Reply
  update_threat_intel_source request =
      handle
        (do
          source_id ← get host request.params "sourceId"
          response ←
              call host (get_client data_source_enabled request)
                "securityAnalytics.updateThreatIntelSource"
                (object (("body", request.body) ∷ ("sourceId", source_id) ∷ []))
          _id ← get host response "_id"
          pure (
              succeed
                (obj (set_field "id" _id (assign end (spread (opt response "source_config")))))))
        (error_message host)

  unfoldable pub get_threat_intel_source : Request → Action Reply
  get_threat_intel_source request =
      handle
        (do
          source_id ← get host request.params "sourceId"
          response ←
              call host (get_client data_source_enabled request)
                "securityAnalytics.getThreatIntelSource" (object (("sourceId", source_id) ∷ []))
          _id ← get host response "_id"
          let shown = field "id" _id (field "version" (opt response "_version") end)
          pure (succeed (obj (assign shown (spread (opt response "source_config"))))))
        (error_message host)

  -- { id: hit._id, ...hit._source.source_config }
  unfoldable pub source_item : Json → Action Json
  source_item hit = do
    _id ← get host hit "_id"
    source ← get host hit "_source"
    config ← get host source "source_config"
    pure (obj (assign (field "id" _id end) (spread config)))

  unfoldable pub search_threat_intel_sources : Request → Action Reply
  search_threat_intel_sources request =
      handle
        (do
          query ← get host request.body "query"
          response ←
              call host (get_client data_source_enabled request)
                "securityAnalytics.searchThreatIntelSources"
                (object (("body", object (("size", num 10000) ∷ ("query", query) ∷ [])) ∷ []))
          found ← get host response "hits"
          hits ← get host found "hits"
          listed ← each host hits
          sources ← map_each host source_item listed
          pure (succeed (array sources)))
        (error_message host)

  unfoldable pub delete_threat_intel_source : Request → Action Reply
  delete_threat_intel_source request =
      handle
        (do
          source_id ← get host request.params "sourceId"
          forward host (get_client data_source_enabled request)
              "securityAnalytics.deleteThreatIntelSource" (object (("sourceId", source_id) ∷ [])))
        (error_message host)

  unfoldable pub refresh_threat_intel_source : Request → Action Reply
  refresh_threat_intel_source request =
      handle
        (do
          source_id ← get host request.params "sourceId"
          forward host (get_client data_source_enabled request)
              "securityAnalytics.refreshThreatIntelSource" (object (("sourceId", source_id) ∷ [])))
        (error_message host)

  unfoldable pub get_threat_intel_iocs : Request → Action Reply
  get_threat_intel_iocs request =
      handle
        (forward host (get_client data_source_enabled request)
          "securityAnalytics.getThreatIntelIoCs" (obj (omit "dataSourceId" (spread request.query))))
        (error_message host)

  unfoldable pub create_threat_intel_monitor : Request → Action Reply
  create_threat_intel_monitor request =
      handle
        (forward host (get_client data_source_enabled request)
          "securityAnalytics.createThreatIntelMonitor" (object (("body", request.body) ∷ [])))
        (error_message host)

  unfoldable pub update_threat_intel_monitor : Request → Action Reply
  update_threat_intel_monitor request =
      handle
        (do
          monitor_id ← get host request.params "monitorId"
          forward host (get_client data_source_enabled request)
              "securityAnalytics.updateThreatIntelMonitor"
              (object (("body", request.body) ∷ ("monitorId", monitor_id) ∷ [])))
        (error_message host)

  unfoldable pub search_threat_intel_monitors : Request → Action Reply
  search_threat_intel_monitors request =
      handle
        (forward host (get_client data_source_enabled request)
          "securityAnalytics.searchThreatIntelMonitors" (object (("body", request.body) ∷ [])))
        (error_message host)

  unfoldable pub delete_threat_intel_monitor : Request → Action Reply
  delete_threat_intel_monitor request =
      handle
        (do
          monitor_id ← get host request.params "monitorId"
          forward host (get_client data_source_enabled request)
              "securityAnalytics.deleteThreatIntelMonitor"
              (object (("monitorId", monitor_id) ∷ [])))
        (error_message host)
