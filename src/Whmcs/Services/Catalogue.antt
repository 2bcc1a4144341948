-- ===== src/Whmcs/Services/Catalogue.antt =====
-- apps/whmcs/services/catalogue.py, and the gateways of apps/whmcs/services/orders.py.
mod Products
mod Prices
mod Gateways
unfoldable pub use Products.{
  cycle_prices, pricing_of, product_of, products_of, fetch_products, list_products,
}
pub use Products.{cycle_fields, with_number}
unfoldable pub use Prices.{
  fetch_currencies, list_currencies, cheapest, tlds_of, fetch_tlds, tld_pricing,
  fetch_announcements, list_announcements,
}
pub use Prices.{first_value}
unfoldable pub use Gateways.{
  module_names, gateways_of, fetch_gateways, list_payment_methods, payment_modules,
  is_valid_payment_method,
}
pub use Gateways.{items_of}
