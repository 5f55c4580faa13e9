-- ===== src/Tests/Buckets.antt =====
-- A codec for bucket records, in place of encoding/json: every field in order.
use opens.Prelude.{refl, ℤ, Bool, Option, List, Bytes}
use opens.Iam.Types.{Acl, PublicAccessBlock}
use opens.Meta.Types.{Time, Tag, ObjectLockConfig, EncryptionRule, Bucket}
use opens.Meta.Store.{Codec}
use opens.Tests.Wire.{
  Wire, nat_wire, int_wire, bool_wire, text_wire, option_wire, list_wire, pair_wire, map_wire,
  codec_of,
}
use opens.Tests.Records.{acl_wire, block_wire, tag_wire, lock_wire, encryption_wire}

bucket_of :
    (Bytes
      × (Bytes
          × (Bytes
              × (Time
                  × (Bool
                      × (Bytes
                          × (Bytes
                              × (Bool
                                  × (Bool
                                      × ((Option ObjectLockConfig)
                                          × ((List Tag)
                                              × (Bytes
                                                  × (Bytes
                                                      × ((Option Acl)
                                                          × ((Option EncryptionRule)
                                                            × ((Option PublicAccessBlock)
                                                            × (Bytes
                                                            × ((Option ℤ)
                                                            × (Bool
                                                            × (Bytes
                                                            × (Bytes
                                                            × (Bytes
                                                            × (Bytes
                                                            × (Bytes
                                                            × (Bytes
                                                            × (Bytes
                                                            × Bytes))))))))))))))))))))))))))
    → Bucket
bucket_of
      (
        x0,
        (
          x1,
          (
            x2,
            (
              x3,
              (
                x4,
                (
                  x5,
                  (
                    x6,
                    (
                      x7,
                      (
                        x8,
                        (
                          x9,
                          (
                            x10,
                            (
                              x11,
                              (
                                x12,
                                (
                                  x13,
                                  (
                                    x14,
                                    (
                                      x15,
                                      (
                                        x16,
                                        (
                                          x17,
                                          (
                                            x18,
                                            (x19, (x20, (x21, (x22, (x23, (x24, (x25, x26))))))),
                                          ),
                                        ),
                                      ),
                                    ),
                                  ),
                                ),
                              ),
                            ),
                          ),
                        ),
                      ),
                    ),
                  ),
                ),
              ),
            ),
          ),
        ),
      ) =
    record {
      name = x0;
      owner = x1;
      owner_display = x2;
      created = x3;
      deleting = x4;
      region = x5;
      versioning = x6;
      mfa_delete = x7;
      object_lock_enabled = x8;
      object_lock = x9;
      tags = x10;
      policy = x11;
      policy_text = x12;
      acl = x13;
      encryption = x14;
      public_access_block = x15;
      ownership = x16;
      quota = x17;
      self_lock = x18;
      lifecycle_xml = x19;
      cors_xml = x20;
      notification_xml = x21;
      website_xml = x22;
      logging_xml = x23;
      replication_xml = x24;
      accelerate_xml = x25;
      request_payment_xml = x26;
    }

bucket_wire : Wire Bucket
unfolding bucket_of
bucket_wire =
    map_wire bucket_of
      (λ r. (
        r.name,
        (
          r.owner,
          (
            r.owner_display,
            (
              r.created,
              (
                r.deleting,
                (
                  r.region,
                  (
                    r.versioning,
                    (
                      r.mfa_delete,
                      (
                        r.object_lock_enabled,
                        (
                          r.object_lock,
                          (
                            r.tags,
                            (
                              r.policy,
                              (
                                r.policy_text,
                                (
                                  r.acl,
                                  (
                                    r.encryption,
                                    (
                                      r.public_access_block,
                                      (
                                        r.ownership,
                                        (
                                          r.quota,
                                          (
                                            r.self_lock,
                                            (
                                              r.lifecycle_xml,
                                              (
                                                r.cors_xml,
                                                (
                                                  r.notification_xml,
                                                  (
                                                    r.website_xml,
                                                    (
                                                      r.logging_xml,
                                                      (
                                                        r.replication_xml,
                                                        (r.accelerate_xml, r.request_payment_xml),
                                                      ),
                                                    ),
                                                  ),
                                                ),
                                              ),
                                            ),
                                          ),
                                        ),
                                      ),
                                    ),
                                  ),
                                ),
                              ),
                            ),
                          ),
                        ),
                      ),
                    ),
                  ),
                ),
              ),
            ),
          ),
        ),
      ))
      (λ r. refl)
      (pair_wire text_wire (
        pair_wire text_wire (
          pair_wire text_wire (
            pair_wire nat_wire (
              pair_wire bool_wire (
                pair_wire text_wire (
                  pair_wire text_wire (
                    pair_wire bool_wire (
                      pair_wire bool_wire (
                        pair_wire (option_wire lock_wire) (
                          pair_wire (list_wire tag_wire) (
                            pair_wire text_wire (
                              pair_wire text_wire (
                                pair_wire (option_wire acl_wire) (
                                  pair_wire (option_wire encryption_wire) (
                                    pair_wire (option_wire block_wire) (
                                      pair_wire text_wire (
                                        pair_wire (option_wire int_wire) (
                                          pair_wire bool_wire (
                                            pair_wire text_wire (
                                              pair_wire text_wire (
                                                pair_wire text_wire (
                                                  pair_wire text_wire (
                                                    pair_wire text_wire (
                                                      pair_wire text_wire (
                                                        pair_wire text_wire
                                                          text_wire))))))))))))))))))))))))))

pub buckets : Codec Bucket
buckets = codec_of bucket_wire
