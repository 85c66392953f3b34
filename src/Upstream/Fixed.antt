-- ===== src/Upstream/Fixed.antt =====
-- A parser that knows two URLs of a shop, at which the theorems about hosts are tried out.
use lueur.Prelude.{String, str_eq, ◌||◌, ◌&&◌, none, some, if◌then◌else◌}
use lueur.Upstream.{UrlApi}

abbrev pub shop : UrlApi
shop = record {
  Url = String;
  parse = λ t. if str_eq t "http://shop" || str_eq t "http://shop:80/cart" then some t else none;
  host_str = λ url. some "shop";
  port_or_known_default = λ url. some 80;
  show = λ n. "80";
  contains = λ text part. str_eq text "http://shop" && str_eq part "://";
}
