-- ===== src/Tests/Handling.antt =====
-- What a run of a request opens.
use tpn_worker.Base.{
  Bool, true, eq_text, strip_prefix, starts_with, split, join, trim_start, trim, drop_all,
  trim_end_matches, show_nat, show_int, parse_nat, parse_int, parse_u32, add_i64, mul_i64,
}
use tpn_worker.World.{running}
use tpn_worker.Db.Table.{where_rows, update_rows, delete_rows, rows_affected, any_row}
use tpn_worker.Locks.{with_lock}
use tpn_worker.Config.{effective_mining_pool_url, effective_peer_count, is_worker}
use tpn_worker.Crypto.{sign_lease_token, verify_lease_token}
use tpn_worker.Net.Ip.{
  show_ipv4, parse_octet, parse_ipv4, is_valid_ipv4, sanitize_ipv4, subnet_prefix, is_local_ip,
}
use tpn_worker.Net.Dns.{
  after_scheme, before, extract_hostname, get_cached, look_up, cached_or_look_up,
  resolve_domain_to_ipv4s,
}
use tpn_worker.Service.Cache.{find, get, get_string}
use tpn_worker.Service.LeaseManager.{
  format_socks5_config, expiry, check_availability, allocate_socks5, new_lease, get_worker_config,
}
use tpn_worker.Db.Socks5.{
  free_rows, find_free, get_socks5_config_non_priority, get_socks5_config, count_available_socks,
}
use tpn_worker.Api.Lease.{
  lease_seconds_of, contains_text, require, check_caller, validate, check_token, respond, lease_new,
}

unfoldable pub handling : Bool
unfolding running eq_text strip_prefix starts_with split join trim_start trim drop_all
    trim_end_matches show_nat show_int parse_nat parse_int parse_u32 add_i64 mul_i64 where_rows
    update_rows delete_rows rows_affected any_row with_lock effective_mining_pool_url
    effective_peer_count is_worker sign_lease_token verify_lease_token show_ipv4 parse_octet
    parse_ipv4 is_valid_ipv4 sanitize_ipv4 subnet_prefix is_local_ip after_scheme before
    extract_hostname get_cached look_up cached_or_look_up resolve_domain_to_ipv4s find get
    get_string format_socks5_config expiry check_availability allocate_socks5 new_lease
    get_worker_config free_rows find_free get_socks5_config_non_priority get_socks5_config
    count_available_socks lease_seconds_of contains_text require check_caller validate check_token
    respond lease_new
handling = true
