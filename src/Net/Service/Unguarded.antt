-- ===== src/Net/Service/Unguarded.antt =====
-- What the service for the exchange of keys does with a message that is not one of success.
