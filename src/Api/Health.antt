-- ===== src/Api/Health.antt =====
-- api/health.rs: the answer by which the mining pool knows the worker. The order of the fields of an
-- object is not modelled.
use tpn_worker.Base.{Text, codes, ◌++◌, is_empty, show_nat, if◌then◌else◌}
use tpn_worker.Base.Json.{Json, Fields, str, obj, end, field}
use tpn_worker.Config.{AppConfig, show_mode, effective_mining_pool_url}

-- The parts of `AppState` that are not settings: the version, the time of the start as RFC 3339, and
-- what was built.
pub record About : Type 0 where
  pub version : Text
  pub start_time : Text
  pub git_branch : Text
  pub git_hash : Text

-- A field that is there only where its setting is not empty.
abbrev unless_empty : Text → Text → Text → Fields → Fields
unless_empty setting key value fs = if is_empty setting then fs else field key (str value) fs

pool_fields : AppConfig → Fields → Fields
pool_fields config fs =
    unless_empty config.mining_pool_name (codes "MINING_POOL_NAME") config.mining_pool_name (
      unless_empty config.mining_pool_url (codes "MINING_POOL_URL")
        (effective_mining_pool_url config) fs)

server_fields : AppConfig → Fields → Fields
server_fields config fs =
    unless_empty config.server_public_host (codes "SERVER_PUBLIC_HOST") config.server_public_host (
      field (codes "SERVER_PUBLIC_PORT") (str (show_nat config.server_port))
        (field (codes "SERVER_PUBLIC_PROTOCOL") (str config.server_public_protocol) fs))

contact_fields : AppConfig → Fields
contact_fields config =
    unless_empty config.mining_pool_rewards (codes "MINING_POOL_REWARDS") config.mining_pool_rewards
      (unless_empty config.mining_pool_website_url (codes "MINING_POOL_WEBSITE_URL")
        config.mining_pool_website_url
        (unless_empty config.broadcast_message (codes "BROADCAST_MESSAGE") config.broadcast_message
          (unless_empty config.contact_method (codes "CONTACT_METHOD") config.contact_method end)))

unfoldable pub health : AppConfig → About → Json
unfolding pool_fields server_fields contact_fields
health config about =
    let notice =
      codes "I am a TPN Network "
      ++ (show_mode config.run_mode ++ (codes " component running v" ++ about.version)) in
    obj (
      field (codes "notice") (str notice) (
        field (codes "info") (str (codes "https://tpn.taofu.xyz")) (
          field (codes "version") (str about.version) (
            field (codes "last_start") (str about.start_time) (
              field (codes "branch") (str about.git_branch) (
                field (codes "hash") (str about.git_hash)
                  (pool_fields config (server_fields config (contact_fields config)))))))))
