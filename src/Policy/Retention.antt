-- ===== src/Policy/Retention.antt =====
-- A valid retention section of a policy, described independently of the checks.
use bufferpool.Base.{◌≤◌, ◌<◌, ◌≡◌, ◌↔◌, [], arith}
use bufferpool.Policy.{RetentionPolicy, retention_is_zero}
use bufferpool.Policy.Report.{report, report_iff, section_iff, Passes, zero_retention}
use bufferpool.Policy.Sections.{retention_checks, validate_retention}

pub record IsRetention (r : RetentionPolicy) : Type 0 where
  pub some_soft : 0 < r.soft_retained_bytes
  pub soft_le_hard : r.soft_retained_bytes ≤ r.hard_retained_bytes
  pub some_buffers : 0 < r.max_retained_buffers
  pub some_request : 0 < r.max_request_size
  pub some_capacity : 0 < r.max_retained_buffer_capacity
  pub capacity_le_hard : r.max_retained_buffer_capacity ≤ r.hard_retained_bytes
  pub some_class_bytes : 0 < r.max_class_retained_bytes
  pub class_bytes_le_hard : r.max_class_retained_bytes ≤ r.hard_retained_bytes
  pub some_class_buffers : 0 < r.max_class_retained_buffers
  pub class_buffers_le : r.max_class_retained_buffers ≤ r.max_retained_buffers
  pub some_shard_bytes : 0 < r.max_shard_retained_bytes
  pub shard_bytes_le_class : r.max_shard_retained_bytes ≤ r.max_class_retained_bytes
  pub some_shard_buffers : 0 < r.max_shard_retained_buffers
  pub shard_buffers_le_class : r.max_shard_retained_buffers ≤ r.max_class_retained_buffers

-- The retention section is valid exactly when every limit is positive, the soft limit, the largest
-- retained capacity and the bytes of a class are at most the hard limit, the buffers of a class at most
-- those of the whole, and the bytes and the buffers of a shard at most those of a class.
pub validate_retention_iff : (r : RetentionPolicy) → (validate_retention r ≡ []) ↔ IsRetention r
unfolding validate_retention retention_is_zero
validate_retention_iff r = (sound, complete)
  where
    sound : validate_retention r ≡ [] → IsRetention r
    sound e =
        let p =
          (report_iff (retention_checks r)).0
            ((section_iff (retention_is_zero r) zero_retention (report (retention_checks r))).0
              e).1 in
        record {
          some_soft = ground (arith, p.0);
          soft_le_hard = ground (arith, p.1.1.0);
          some_buffers = ground (arith, p.1.1.1.0);
          some_request = ground (arith, p.1.1.1.1.0);
          some_capacity = ground (arith, p.1.1.1.1.1.0);
          capacity_le_hard = ground (arith, p.1.1.1.1.1.1.0);
          some_class_bytes = ground (arith, p.1.1.1.1.1.1.1.0);
          class_bytes_le_hard = ground (arith, p.1.1.1.1.1.1.1.1.0);
          some_class_buffers = ground (arith, p.1.1.1.1.1.1.1.1.1.0);
          class_buffers_le = ground (arith, p.1.1.1.1.1.1.1.1.1.1.0);
          some_shard_bytes = ground (arith, p.1.1.1.1.1.1.1.1.1.1.1.0);
          shard_bytes_le_class = ground (arith, p.1.1.1.1.1.1.1.1.1.1.1.1.0);
          some_shard_buffers = ground (arith, p.1.1.1.1.1.1.1.1.1.1.1.1.1.0);
          shard_buffers_le_class = ground (arith, p.1.1.1.1.1.1.1.1.1.1.1.1.1.1.0);
        }

    passes : IsRetention r → Passes (retention_checks r)
    passes v = (
      ground arith,
      (
        ground arith,
        (
          ground arith,
          (
            ground arith,
            (
              ground arith,
              (
                ground arith,
                (
                  ground arith,
                  (
                    ground arith,
                    (
                      ground arith,
                      (
                        ground arith,
                        (
                          ground arith,
                          (ground arith, (ground arith, (ground arith, (ground arith, tt)))),
                        ),
                      ),
                    ),
                  ),
                ),
              ),
            ),
          ),
        ),
      ),
    )

    complete : IsRetention r → validate_retention r ≡ []
    complete v =
        (section_iff (retention_is_zero r) zero_retention (report (retention_checks r))).1
          (ground arith, (report_iff (retention_checks r)).1 (passes v))
