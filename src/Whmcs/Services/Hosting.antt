-- ===== src/Whmcs/Services/Hosting.antt =====
-- `ServiceService` of apps/whmcs/services/hosting.py, without its log lines.
mod Reads
mod Upgrade
mod Changes
unfoldable pub use Reads.{
  services_params, fetch_services, list_services, first_service, fetch_service, get_service,
}
pub use Reads.{service_statuses, service_missing, service_map}
unfoldable pub use Upgrade.{
  find_product, other_products, offers, same_group, upgrade_options, refuse_unless,
  assert_upgrade_allowed, upgrade_result, quote_upgrade, place_upgrade, upgrade_if, upgrade,
}
pub use Upgrade.{
  Change, upgrade_refused, no_gateway, unknown_gateway, same_int, int_in, text_or_null,
}
unfoldable pub use Changes.{
  send_password, change_service_password, send_cancellation, request_cancellation,
}
