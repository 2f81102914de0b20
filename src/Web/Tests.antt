-- ===== src/Web/Tests.antt =====
-- Runs of crates/web/src on concrete requests.
use tiny_shop.Prelude.{
  ℕ, String, ◌≡◌, refl, true, false, Option, some, none, [], ◌∷◌, ◌==◌, nat_eq, ltb, concat,
  if◌then◌else◌, find?, map, order_by, filter, any, min, arith, ◌-◌, ◌^◌, update_where,
  delete_where,
}
use tiny_shop.Prelude.Int.{pos, ◌+ℤ◌}
use tiny_shop.Sql.{ok, query, transaction}
use tiny_shop.Shared.Json.{trees}
use tiny_shop.Events.Outbox.{no_rows}
use tiny_shop.Orders.{NewOrderContact}
use tiny_shop.Orders.Keeps.{IsConsistent}
use tiny_shop.Cart.{Cart}
use tiny_shop.Cart.Isolation.{SameCart}
use tiny_shop.Web.Basket.{
  AddForm, UpdateForm, RemoveForm, see_other, render_add, render_update, render_remove,
}
use tiny_shop.Web.Basket.Adding.{Addition, render_add-Addition}
use tiny_shop.Web.Basket.Currency.{OneCurrency, basket-OneCurrency}
use tiny_shop.Web.Basket.Others.{requests-SameCart}
use tiny_shop.Web.Strings.{
  any_char, byte_len, is_empty, split, split_once, trim, trim_start, trim_end,
}
use tiny_shop.Web.Cookie.{set_cart_cookie, extract_cart_token}
use tiny_shop.Web.Cookie.RoundTrip.{first_part, extract_cart_token-set_cart_cookie}
use tiny_shop.Web.Checkout.{ContactForm, total_from, validate_contact}
use tiny_shop.Web.Checkout.Contact.{EmailFits, NameFits, validate_contact-fits}
use tiny_shop.Web.Checkout.Total.{exact, total_from_lem}
use tiny_shop.Web.Checkout.Routes.{Site, Draw, AppState, render_submit}
use tiny_shop.Web.Checkout.Outcomes.{Outcome, sends_on}
use tiny_shop.Web.Checkout.Guest.{render_submit-Outcome}

abbrev site : Site
site = record {
  secure = true;
  is_whitespace = λ c. c == b' ';
  is_control = λ c. ltb c 32;
  hash_token = concat "hash of ";
  shown = record { number = λ n. "number"; sql = λ e. "sql"; order = λ e. "order" };
}

abbrev draw : Draw
draw = record {
  now = pos 9;
  buyer = "b1";
  order_id = "o1";
  item_id = λ n. if n == 0 then "i0" else "i1";
}

abbrev cookies : Option String
cookies = some "theme=dark; cart=t1"

abbrev form : ContactForm
form = record { email = " ann@example.org"; name = some " " }

-- Two lamps in the cart, at a price that the catalog has changed since.
abbrev shop : AppState trees ℕ
shop = record {
  carts = record {
    tables = record {
      carts = record { token_hash = "hash of t1"; created_at = pos 1; updated_at = pos 1 } ∷ [];
      items =
          record {
            id = 1;
            cart_id = "hash of t1";
            product_id = "lamp";
            variant_id = none;
            qty = pos 2;
            title = "Lamp";
            unit_price_minor = pos 900;
            currency = "EUR";
            added_at = pos 1;
          }
          ∷ [];
      last_item = 1;
    };
    faults = [];
  };
  orders = record {
    tables = record { orders = []; order_items = []; contacts = []; outbox = no_rows };
    faults = [];
  };
  search = record {
    tables = record {
      categories = [];
      attributes = [];
      attribute_options = [];
      filters = [];
      translations = [];
      product_projection =
          record {
            id = "lamp";
            seller_id = "ada";
            title = "Lamp";
            slug = "lamp";
            description = "";
            price_minor = pos 950;
            currency = "EUR";
            status = "published";
            category_id = none;
            thumb = none;
            created_at = pos 1;
            updated_at = pos 1;
          }
          ∷ [];
      product_attr_index = [];
      product_fts = [];
    };
    faults = [];
  };
}

shop-IsConsistent : IsConsistent trees shop.orders.tables
shop-IsConsistent = record {
  totals = tt;
  owned = tt;
  readable = tt;
  order_ids = tt;
  item_ids = tt;
  addressed = tt;
}

render_submit-Outcome_example :
    Outcome trees site draw cookies form shop (render_submit trees site draw cookies form shop)
render_submit-Outcome_example =
    render_submit-Outcome trees site draw cookies form shop shop-IsConsistent

sent_on : sends_on (render_submit trees site draw cookies form shop).0 ≡ true
unfolding render_submit query transaction find? order_by filter any update_where delete_where ◌+ℤ◌
sent_on = refl

t1_full : is_empty "t1" ≡ false
unfolding is_empty
t1_full = refl

t1_no_space : any_char site.is_whitespace "t1" ≡ false
unfolding any_char
t1_no_space = refl

t1_no_end : any_char (λ c. c == b';') "t1" ≡ false
unfolding any_char
t1_no_end = refl

extract_cart_token-set_cart_cookie_example :
    extract_cart_token site.is_whitespace (first_part (split b';' (set_cart_cookie "t1" true)))
    ≡ some "t1"
extract_cart_token-set_cart_cookie_example =
    extract_cart_token-set_cart_cookie site.is_whitespace "t1" true refl t1_full t1_no_space
      t1_no_end

abbrev named_form : ContactForm
named_form = record { email = " ann@example.org"; name = some " Ann " }

abbrev ann : NewOrderContact
ann = record { email = "ann@example.org"; name = some "Ann" }

form_accepted : validate_contact site.is_whitespace site.is_control named_form ≡ ok ann
unfolding validate_contact byte_len any_char is_empty split_once trim trim_start trim_end
form_accepted = refl

validate_contact-fits_example :
    (ann.email ≡ trim site.is_whitespace named_form.email)
    × EmailFits site.is_whitespace site.is_control ann.email
    × NameFits site.is_control ann.name
validate_contact-fits_example =
    validate_contact-fits site.is_whitespace site.is_control named_form ann refl refl form_accepted

total_from_lem_example :
    total_from (pos 0) shop.carts.tables.items
    ≡ pos (min (2 ^ 63 - 1) (exact shop.carts.tables.items))
total_from_lem_example = total_from_lem shop.carts.tables.items ((omega arith, omega arith), tt)

cookie_read : extract_cart_token site.is_whitespace cookies ≡ some "t1"
unfolding extract_cart_token
cookie_read = refl

abbrev update : UpdateForm
update = record { item_id = pos 1; qty = pos 3 }

abbrev removal : RemoveForm
removal = record { item_id = pos 1 }

requests-SameCart_example :
    SameCart "hash of t2" shop.carts.tables
      (render_update trees site draw cookies update shop).1.carts.tables
    × SameCart "hash of t2" shop.carts.tables
        (render_remove trees site draw cookies removal shop).1.carts.tables
requests-SameCart_example =
    requests-SameCart trees site draw cookies shop "hash of t2" "t1" update removal cookie_read refl

abbrev addition : AddForm
addition = record { slug = "lamp"; qty = pos 3 }

render_add-Addition_example :
    Addition trees site draw "t2" none addition shop
      (render_add trees site draw "t2" none addition shop)
render_add-Addition_example = render_add-Addition trees site draw "t2" none addition shop

-- Without a cookie, the lamp goes into a new cart.
put_into_new :
    (render_add trees site draw "t2" none addition shop).0
    ≡ ok (see_other (some (set_cart_cookie "t2" true)) "/cart")
unfolding render_add query transaction find? order_by filter any update_where
put_into_new = refl

shop-OneCurrency : OneCurrency shop.carts.tables
unfolding filter
shop-OneCurrency id = ("EUR", ground arith)

basket-OneCurrency_example :
    OneCurrency (render_add trees site draw "t2" cookies addition shop).1.carts.tables
    × OneCurrency (render_update trees site draw cookies update shop).1.carts.tables
    × OneCurrency (render_remove trees site draw cookies removal shop).1.carts.tables
basket-OneCurrency_example =
    basket-OneCurrency trees site draw cookies shop "t2" addition update removal shop-OneCurrency

abbrev bad_addition : AddForm
bad_addition = record { slug = "lamp"; qty = pos 0 }

-- Without a cookie and with a quantity that is refused, a cart is left that no cookie names.
left_behind :
    map
      (λ (c : Cart). c.token_hash)
      (render_add trees site draw "t2" none bad_addition shop).1.carts.tables.carts
    ≡ "hash of t1" ∷ "hash of t2" ∷ []
unfolding render_add query transaction find? order_by filter any
left_behind = refl
