-- ===== src/Zabbix.antt =====
-- internal/zabbix: the history results that the collector hands to the cache.
pub mod History
