-- ===== src/Currency/Tests.antt =====
-- Concrete currencies, for the code of blockchain/currency.go.
use agents_go.Prelude.{◌≡◌, refl, some, [], codes, inl, arith}
use agents_go.Currency.{
  CurrencyId, currency_from_string, from_parts, currency_string, currency_normalize,
  chain_normalize, chain_currency_string,
}
use agents_go.Currency.RoundTrip.{IsPlain, currency_from_string-string}

abbrev on_test_net : CurrencyId
on_test_net = record {
  chain = record { chain_type = codes "E"; network = codes "T" };
  currency_id = record { address = codes "0a"; token = [] };
}

-- A token of the main network.
abbrev on_main_net : CurrencyId
on_main_net = record {
  chain = record { chain_type = codes "E"; network = [] };
  currency_id = record { address = codes "0a"; token = [] };
}

on_test_net-IsPlain : IsPlain on_test_net
on_test_net-IsPlain = record {
  plain_type = (omega arith, tt);
  plain_network = (omega arith, tt);
  plain_address = (omega arith, (omega arith, tt));
  plain_token = tt;
}

on_main_net-IsPlain : IsPlain on_main_net
on_main_net-IsPlain = record {
  plain_type = (omega arith, tt);
  plain_network = tt;
  plain_address = (omega arith, (omega arith, tt));
  plain_token = tt;
}

-- The print without a network, and the currency that it is read as: `0a` is taken for the network.
main_net_text :
    (currency_string on_main_net ≡ codes "E:0a")
    × (currency_from_string (codes "E:0a")
        ≡ some (record {
          chain = record { chain_type = codes "E"; network = codes "0A" };
          currency_id = record { address = []; token = [] };
        }))
unfolding currency_string chain_currency_string currency_from_string from_parts
main_net_text = (refl, refl)

currency_from_string-string_example :
    currency_from_string (currency_string on_test_net) ≡ some on_test_net
unfolding currency_normalize chain_normalize
currency_from_string-string_example =
    currency_from_string-string on_test_net on_test_net-IsPlain refl (inl (λ h. cc))
